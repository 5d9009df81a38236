-- ===== src/Facts/Dependents.antt =====
-- `_flag_dependents_on_correction` of contract_item_facts.py and shipment_facts.py: a correction
-- raises a task when records that other parts keep name the fact.
use business_execution_ledge.Base.{
  ℕ, Bool, true, false, Option, none, some, List, [], ◌∷◌, map, ◌==◌, if◌then◌else◌,
}
use business_execution_ledge.Base.Lists.{any, filter}
use business_execution_ledge.Facts.Rows.{
  Revision, Store, fact_superseded, assertion_failed, Result, ok, err, FactResult,
}
use business_execution_ledge.Facts.Repository.{get_current_revision, add_task}
use business_execution_ledge.Facts.Revise.{Revise}

-- The records of another table: pairs of the fact that a record names and the record.
abbrev pub References : Type 0
References = List (ℕ × ℕ)

abbrev pub list_for : ℕ → References → List ℕ
list_for i rows = map (λ x. x.1) (filter (λ x. x.0 == i) rows)

abbrev pub dependents : ℕ → List References → List (List ℕ)
dependents i tables = map (list_for i) tables

abbrev pub is_some_record : List ℕ → Bool
is_some_record [] = false
is_some_record (_ ∷ _) = true

module _ {I : Type 0} where
  unfoldable pub flag_dependents_on_correction : List (List ℕ) → ℕ → ℕ → ℕ → ℕ → Store I → Store I
  flag_dependents_on_correction deps fact superseded superseding now s =
      if any is_some_record deps
      then add_task (fact_superseded fact superseded superseding deps) now s
      else s

  abbrev pub flag_current :
      List (List ℕ)
      → Revise
      → FactResult I
      → Option Revision
      → Store I
      → Result (FactResult I) × Store I
  flag_current deps c f none s = (err assertion_failed, s)
  flag_current deps c f (some r) s = (
    ok f,
    flag_dependents_on_correction deps c.anchor_id c.based_on_revision_id r.id c.created_at s,
  )

  -- What `correct_*_fact` does with the outcome of the revision.
  abbrev pub after_correction :
      List (List ℕ) → Revise → Result (FactResult I) × Store I → Result (FactResult I) × Store I
  after_correction deps c (err e, s) = (err e, s)
  after_correction deps c (ok f, s) =
      if f.revision_written
      then flag_current deps c f (get_current_revision c.anchor_id s.revisions) s
      else (ok f, s)
