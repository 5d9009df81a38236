-- ===== src/Facts/Command.antt =====
-- `_apply_revision` as a whole: what a written revision has been checked for, and what a call leaves
-- in the store.
use business_execution_ledge.Base.{
  ℕ, ◌≡◌, refl, ap, ◌∙◌, true, Option, none, some, List, arith, ◌==◌,
}
use business_execution_ledge.Facts.Rows.{
  Fields, Revision, Anchor, Store, no_fields, fact_not_found, fragment_not_found, not_current,
  assertion_failed, Result, ok, ◌>>◌, require, or_refuse, bind-ok, or_refuse-ok, require-ok,
}
use business_execution_ledge.Facts.Repository.{
  is_current, get, get_current_revision, find_revision_by_fragment,
}
use business_execution_ledge.Facts.Revise.{
  check_intent, Revise, new_revision, is_filled, has_fragment, check_reuse, check_current,
  plan_with, plan_revision, prepare,
}

plan_with-new :
    (known : List ℕ) (c : Revise) (rows : List Revision) (o : Option Revision) (new : Revision)
    → plan_with known c rows o ≡ ok (some new)
    → (o ≡ none)
      × ((current : Revision) × ((get_current_revision c.anchor_id rows ≡ some current)
            × (check_current c current ≡ ok tt)
            × (new ≡ new_revision c current)))
plan_with-new known c rows (some reused) new h =
    let (u, _, e) = bind-ok (check_reuse known c rows reused) (λ _. ok none) (some new) h in cc
plan_with-new known c rows none new h =
    let (current, found, e) =
      bind-ok (or_refuse (get_current_revision c.anchor_id rows) assertion_failed)
        (λ current. check_current c current >> ok (some (new_revision c current))) (some new) h in
    let (u, checked, e') =
      bind-ok (check_current c current) (λ _. ok (some (new_revision c current))) (some new) e in
    let found' =
      or_refuse-ok (get_current_revision c.anchor_id rows) assertion_failed current found in
    (refl, (current, (found', checked, cc)))

check_current-ok :
    (c : Revise) (current : Revision)
    → check_current c current ≡ ok tt
    → (current.id ≡ c.based_on_revision_id)
      × (check_intent c.revision_type current.values c.fields ≡ ok tt)
unfolding check_current
check_current-ok c current h =
    let (u, based, e) =
      bind-ok (require (current.id == c.based_on_revision_id) not_current)
        (λ _. check_intent c.revision_type current.values c.fields) tt h in
    let same = require-ok (current.id == c.based_on_revision_id) not_current u based in
    (ground arith, e)

-- What holds of the store that a command has read when it is about to write `new`.
pub record IsPlanned {I : Type 0} (validate : Fields → Result Unit)
    (check_fact : Anchor I → Fields → Result Unit) (c : Revise) (s : Store I)
    (fact : Anchor I × Revision) (new : Revision) : Type 0 where
  pub is_the_fact : get c.anchor_id s ≡ some fact
  pub current : Revision
  pub is_the_current : get_current_revision c.anchor_id s.revisions ≡ some current
  pub is_merged : new ≡ new_revision c current
  pub is_based : current.id ≡ c.based_on_revision_id
  pub is_intended : check_intent c.revision_type current.values c.fields ≡ ok tt
  pub is_unused : find_revision_by_fragment c.anchor_id c.source_fragment_id s.revisions ≡ none
  pub is_valid : validate c.fields ≡ ok tt
  pub is_allowed : check_fact fact.0 c.fields ≡ ok tt
  pub is_not_empty : is_filled c.fields ≡ true
  pub is_evidenced : has_fragment s.fragments c.source_fragment_id ≡ true

module _ {I : Type 0} (known : List ℕ) (validate : Fields → Result Unit)
    (check_fact : Anchor I → Fields → Result Unit) where
  -- A command that is about to write has read the fact, its current revision is the one that the
  -- caller worked from, and every check has passed on that revision.
  pub prepare-IsPlanned :
      (c : Revise) (s : Store I) (fact : Anchor I × Revision) (new : Revision)
      → prepare known validate check_fact c s ≡ ok (fact, some new)
      → IsPlanned validate check_fact c s fact new
  unfolding prepare plan_revision
  prepare-IsPlanned c s fact new h =
      let (u1, valid, h1) = bind-ok (validate c.fields) _ _ h in
      let (u2, filled, h2) = bind-ok (require (is_filled c.fields) no_fields) _ _ h1 in
      let (f, found, h3) = bind-ok (or_refuse (get c.anchor_id s) fact_not_found) _ _ h2 in
      let (u4, checked, h4) = bind-ok (check_fact f.0 c.fields) _ _ h3 in
      let (u5, frag, h5) =
        bind-ok (require (has_fragment s.fragments c.source_fragment_id) fragment_not_found) _ _
          h4 in
      let (plan, planned, h6) =
        bind-ok
          (plan_with known c s.revisions
            (find_revision_by_fragment c.anchor_id c.source_fragment_id s.revisions))
          _ _ h5 in
      let e : plan ≡ some new = cc in
      let same : fact ≡ f = cc in
      let same_fact : get c.anchor_id s ≡ some fact =
        or_refuse-ok (get c.anchor_id s) fact_not_found f found ∙ cc in
      let (unused, (current, (is_current, ok_current, merged))) =
        plan_with-new known c s.revisions
          (find_revision_by_fragment c.anchor_id c.source_fragment_id s.revisions) new
          (rw (← e) planned) in
      let (based, intended) = check_current-ok c current ok_current in
      record {
        is_the_fact = same_fact;
        current = current;
        is_the_current = is_current;
        is_merged = merged;
        is_based = based;
        is_intended = intended;
        is_unused = unused;
        is_valid = valid;
        is_allowed = ap (λ (g : Anchor I × Revision). check_fact g.0 c.fields) same ∙ checked;
        is_not_empty = require-ok (is_filled c.fields) no_fields u2 filled;
        is_evidenced =
            require-ok (has_fragment s.fragments c.source_fragment_id) fragment_not_found u5 frag;
      }
