-- ===== src/Facts/Revise.antt =====
-- `_asserted_fields` and `_apply_revision`, alike in the four modules.
use business_execution_ledge.Base.{
  ℕ, Bool, true, false, ◌||◌, not, Option, none, some, List, [], ◌∷◌, ◌==◌, present,
}
use business_execution_ledge.Base.Lists.{any, all, filter}
use business_execution_ledge.Facts.Rows.{
  Value, Fields, Revision, RevisionType, supplement, same_intent, Anchor, Store, no_fields,
  fact_not_found, fragment_not_found, other_intent, other_content, not_current, already_known,
  nothing_to_correct, superseded_concurrently, assertion_failed, Result, ok, err, ◌>>=◌, ◌>>◌,
  require, or_refuse, FactResult,
}
use business_execution_ledge.Facts.Fields.{entry_eq, dict_eq, field_names, merged, select}
use business_execution_ledge.Facts.Repository.{
  get, get_current_revision, find_predecessor, find_revision_by_fragment,
  append_revision_against_current,
}

-- What a revision asserted, as opposed to what it carried forward. `known` are the store's fields.
unfoldable pub asserted_fields : List ℕ → List Revision → Revision → Fields
asserted_fields known rows r = elim r.asserted_field_names [
  | some names ↦ select names r.values
  | none ↦ elim (find_predecessor r.id rows) [
    | none ↦ filter (λ x. present x.1) (select known r.values)
    | some p ↦ filter (λ x. not (entry_eq x.1 (p.values x.0))) (select known r.values)
  ]
]

-- The loop over the fields of a SUPPLEMENT: a known value may only be given again.
abbrev pub may_supplement : (ℕ → Option Value) → ℕ × Option Value → Bool
may_supplement values x = not (present (values x.0)) || entry_eq (values x.0) x.1

unfoldable pub check_intent : RevisionType → (ℕ → Option Value) → Fields → Result Unit
check_intent supplement values fields = require (all (may_supplement values) fields) already_known
check_intent _ values fields = require (all (λ x. present (values x.0)) fields) nothing_to_correct

-- A call of supplement or correct: `rev_id` is the uuid4 of the new revision.
pub record Revise : Type 0 where
  pub rev_id : ℕ
  pub anchor_id : ℕ
  pub based_on_revision_id : ℕ
  pub fields : Fields
  pub source_fragment_id : ℕ
  pub created_at : ℕ
  pub revision_type : RevisionType

abbrev pub new_revision : Revise → Revision → Revision
new_revision c current = record {
  id = c.rev_id;
  anchor_id = c.anchor_id;
  revision_type = c.revision_type;
  values = merged current.values c.fields;
  source_fragment_id = some c.source_fragment_id;
  superseded_by_revision_id = none;
  created_at = c.created_at;
  asserted_field_names = some (field_names c.fields);
}

abbrev pub is_filled : Fields → Bool
is_filled [] = false
is_filled (_ ∷ _) = true

abbrev pub has_fragment : List ℕ → ℕ → Bool
has_fragment fragments f = any (λ i. i == f) fragments

unfoldable pub check_current : Revise → Revision → Result Unit
check_current c current = do
  require (current.id == c.based_on_revision_id) not_current
  check_intent c.revision_type current.values c.fields

module _ (known : List ℕ) where
  -- A fragment that has asserted something of this anchor is a replay or a conflict.
  unfoldable pub check_reuse : Revise → List Revision → Revision → Result Unit
  check_reuse c rows reused = do
    require (same_intent reused.revision_type c.revision_type) other_intent
    require (dict_eq (asserted_fields known rows reused) c.fields) other_content

  -- The revision to write, or None for a replay, once the fragment has been looked up.
  abbrev pub plan_with : Revise → List Revision → Option Revision → Result (Option Revision)
  plan_with c rows (some reused) = check_reuse c rows reused >> ok none
  plan_with c rows none =
      or_refuse (get_current_revision c.anchor_id rows) assertion_failed >>= λ current.
      check_current c current >> ok (some (new_revision c current))

  unfoldable pub plan_revision : Revise → List Revision → Result (Option Revision)
  plan_revision c rows =
      plan_with c rows (find_revision_by_fragment c.anchor_id c.source_fragment_id rows)

module _ {I : Type 0} where
  abbrev pub read_back : ℕ → Store I → Result (FactResult I)
  read_back a s = or_refuse (get a s) assertion_failed >>= λ fact. ok (record {
    anchor = fact.0;
    current = fact.1;
    created = false;
    revision_written = true;
    replay = false;
    corroborating = false;
  })

  abbrev pub conclude : ℕ → Store I → Result Bool → Result (FactResult I)
  conclude a s (err e) = err e
  conclude a s (ok false) = err superseded_concurrently
  conclude a s (ok true) = read_back a s

  -- The conditional write and the read after it.
  unfoldable pub write_revision : Revise → Revision → Store I → Result (FactResult I) × Store I
  write_revision c r s =
      let (retired, rows) = append_revision_against_current r c.based_on_revision_id s.revisions in
      let s' = record s { revisions = rows } in (conclude c.anchor_id s' retired, s')

  abbrev pub replayed : Anchor I → Revision → FactResult I
  replayed x r = record {
    anchor = x;
    current = r;
    created = false;
    revision_written = false;
    replay = true;
    corroborating = false;
  }

  -- `t` is the store that the writes find.
  abbrev pub perform :
      Revise
      → Store I
      → Store I
      → Result ((Anchor I × Revision) × Option Revision)
      → Result (FactResult I) × Store I
  perform c s t (err e) = (err e, s)
  perform c s t (ok ((x, r), none)) = (ok (replayed x r), s)
  perform c s t (ok (fact, some new)) = write_revision c new t

-- `validate` are the checks of the fields alone, and `check_fact` those against the current fact,
-- which only shipments have.
module _ {I : Type 0} (known : List ℕ) (validate : Fields → Result Unit)
    (check_fact : Anchor I → Fields → Result Unit) where
  -- The fact as it is, and what is to be done; nothing has been written yet.
  unfoldable pub prepare : Revise → Store I → Result ((Anchor I × Revision) × Option Revision)
  prepare c s = do
    validate c.fields
    require (is_filled c.fields) no_fields
    fact ← or_refuse (get c.anchor_id s) fact_not_found
    check_fact fact.0 c.fields
    require (has_fragment s.fragments c.source_fragment_id) fragment_not_found
    plan ← plan_revision known c s.revisions
    ok (fact, plan)

  -- `rival` is what other sessions commit between the reads and the write.
  unfoldable pub apply_revision :
      (Store I → Store I) → Revise → Store I → Result (FactResult I) × Store I
  apply_revision rival c s = perform c s (rival s) (prepare c s)
