-- ===== src/Facts/Create.antt =====
-- The `create_*_fact` commands: what they share once their own checks have passed. They run inside
-- one write transaction, so that nobody else writes between the look-up and the insert.
use business_execution_ledge.Base.{
  ℕ, Bool, true, false, not, Option, none, some, List, [], ◌∷◌, ◌++◌, ltb, if◌then◌else◌,
}
use business_execution_ledge.Base.Lists.{find}
use business_execution_ledge.Match.Candidates.{sorted}
use business_execution_ledge.Facts.Rows.{
  Fields, Revision, initial, Anchor, Store, other_content, conflicting_evidence, assertion_failed,
  Result, ok, err, ◌>>=◌, ◌>>◌, or_refuse, FactResult,
}
use business_execution_ledge.Facts.Fields.{dict_eq, incoming_assertion, keys, value_of}
use business_execution_ledge.Facts.Repository.{
  same_id, get_current_revision, get_initial_revision, get, create_anchor, create_initial_revision,
}
use business_execution_ledge.Facts.Revise.{asserted_fields}

-- A create call without its identity: `anchor_id` and `rev_id` are the two uuid4.
pub record Create : Type 0 where
  pub anchor_id : ℕ
  pub rev_id : ℕ
  pub fields : Fields
  pub source_fragment_id : ℕ
  pub created_at : ℕ

abbrev pub initial_revision : Create → Revision
initial_revision c = record {
  id = c.rev_id;
  anchor_id = c.anchor_id;
  revision_type = initial;
  values = value_of c.fields;
  source_fragment_id = some c.source_fragment_id;
  superseded_by_revision_id = none;
  created_at = c.created_at;
  asserted_field_names = some (sorted ltb (keys (incoming_assertion c.fields)));
}

abbrev pub is_same_fragment : Create → Revision → Bool
is_same_fragment c first = same_id first.source_fragment_id (some c.source_fragment_id)

module _ {I : Type 0} where
  -- The checks of a command come first, and what they refuse writes nothing.
  abbrev pub if_passed :
      Result Unit → Store I → Result (FactResult I) × Store I → Result (FactResult I) × Store I
  if_passed (err e) s done = (err e, s)
  if_passed (ok _) s done = done

  abbrev pub matched : Anchor I × Revision → Bool → FactResult I
  matched fact same_fragment = record {
    anchor = fact.0;
    current = fact.1;
    created = false;
    revision_written = false;
    replay = same_fragment;
    corroborating = not same_fragment;
  }

  abbrev pub was_created : Anchor I × Revision → FactResult I
  was_created fact = record {
    anchor = fact.0;
    current = fact.1;
    created = true;
    revision_written = true;
    replay = false;
    corroborating = false;
  }

  -- The outcomes where the identity exists: a replay, corroborating evidence, or a conflict, by what
  -- its INITIAL revision asserted.
  abbrev pub compare_initial :
      List ℕ → Create → List Revision → Anchor I × Revision → Revision → Result (FactResult I)
  compare_initial known c rows fact first =
      if dict_eq (incoming_assertion c.fields) (asserted_fields known rows first)
      then ok (matched fact (is_same_fragment c first))
      else err (if is_same_fragment c first then other_content else conflicting_evidence)

  unfoldable pub resolve_existing :
      List ℕ → Create → Store I → Anchor I × Revision → Result (FactResult I)
  resolve_existing known c s fact =
      or_refuse (get_initial_revision fact.0.id s.revisions) assertion_failed >>= λ first.
      compare_initial known c s.revisions fact first

  abbrev pub new_anchor : I → Create → Anchor I
  new_anchor identity c = record {
    id = c.anchor_id;
    identity = identity;
    created_at = c.created_at;
  }

  unfoldable pub create_new : I → Create → Store I → Result (FactResult I) × Store I
  create_new identity c s =
      let s' = create_anchor (new_anchor identity c) s in
      let (written, rows) = create_initial_revision (initial_revision c) s'.revisions in
      let s'' = record s' { revisions = rows } in
      (
        (written >> or_refuse (get c.anchor_id s'') assertion_failed >>= λ fact.
            ok (was_created fact)),
        s'',
      )

  abbrev pub create_with :
      List ℕ → I → Create → Store I → Option (Anchor I × Revision) → Result (FactResult I) × Store I
  create_with known identity c s none = create_new identity c s
  create_with known identity c s (some fact) = (resolve_existing known c s fact, s)

  abbrev pub with_current : Anchor I → Option Revision → List (Anchor I × Revision)
  with_current x none = []
  with_current x (some r) = (x, r) ∷ []

  -- The anchors joined with their current revisions.
  abbrev pub current_facts : List Revision → List (Anchor I) → List (Anchor I × Revision)
  current_facts rows [] = []
  current_facts rows (x ∷ xs) =
      with_current x (get_current_revision x.id rows) ++ current_facts rows xs

  abbrev pub has_identity : (I → Bool) → Anchor I × Revision → Bool
  has_identity is_same fact = is_same fact.0.identity

  unfoldable pub find_by_identity : (I → Bool) → Store I → Option (Anchor I × Revision)
  find_by_identity is_same s = find (has_identity is_same) (current_facts s.revisions s.anchors)

  unfoldable pub create_fact :
      List ℕ → (I → Bool) → I → Create → Store I → Result (FactResult I) × Store I
  create_fact known is_same identity c s =
      create_with known identity c s (find_by_identity is_same s)
