-- ===== src/Facts/Flags.antt =====
-- The tasks that corrections raise and that supplements close.
use business_execution_ledge.Base.{
  ℕ, ◌≡◌, refl, ◌∙◌, true, false, some, List, [], ◌∷◌, ◌++◌, map, arith, if◌then◌else◌, Bool-cases,
  inl, inr,
}
use mathlib.Core.List.{append-nil}
use business_execution_ledge.Base.Lists.{any}
use business_execution_ledge.Facts.Rows.{
  Fields, Revision, is_initial, Anchor, Store, Task, fact_superseded, Result, ok,
}
use business_execution_ledge.Facts.Repository.{get_current_revision, retire, get_anchor}
use business_execution_ledge.Facts.Revise.{Revise, new_revision, prepare, apply_revision}
use business_execution_ledge.Facts.History.{history, is_newest}
use business_execution_ledge.Facts.Outcome.{
  Commits, wrote, current-appended, get_anchor-get, write_revision-written,
}
use business_execution_ledge.Facts.Command.{prepare-IsPlanned}
use business_execution_ledge.Facts.Dependents.{
  is_some_record, flag_dependents_on_correction, after_correction,
}

-- The one task that a correction raises, where a record names the fact.
abbrev pub superseded_tasks : List (List ℕ) → Revise → List Task
superseded_tasks deps c =
    if any is_some_record deps
    then record {
      detail = fact_superseded c.anchor_id c.based_on_revision_id c.rev_id deps;
      is_open = true;
      created_at = c.created_at;
    }
      ∷ []
    else []

flag_dependents_on_correction-raises :
    {I : Type 0} (deps : List (List ℕ)) (c : Revise) (s : Store I)
    → flag_dependents_on_correction deps c.anchor_id c.based_on_revision_id c.rev_id c.created_at s
      ≡ record s { tasks = s.tasks ++ superseded_tasks deps c }
unfolding flag_dependents_on_correction
flag_dependents_on_correction-raises deps c s = elim (Bool-cases (any is_some_record deps)) [
  | inl e ↦ rw e refl
  | inr e ↦ rw (e, append-nil) refl
]

module _ {I : Type 0} (known : List ℕ) (validate : Fields → Result Unit)
    (check_fact : Anchor I → Fields → Result Unit) where
  -- The whole outcome of a call that writes.
  pub apply_revision-written :
      (rival : Store I → Store I) (c : Revise) (s : Store I) (x : Anchor I) (r new : Revision)
      → prepare known validate check_fact c s ≡ ok ((x, r), some new)
      → is_initial c.revision_type ≡ false
      → Commits c s (rival s)
      → is_newest c.based_on_revision_id (history c.anchor_id (rival s).revisions) ≡ true
      → apply_revision known validate check_fact rival c s ≡ (
        ok (wrote x new),
        record (rival s) {
          revisions =
              map (retire c.based_on_revision_id c.anchor_id c.rev_id) (rival s).revisions
              ++ new ∷ [];
        },
      )
  unfolding apply_revision
  apply_revision-written rival c s x r new p n commits h =
      let planned = prepare-IsPlanned known validate check_fact c s (x, r) new p in
      let made = new_revision c planned.current in
      let here : get_anchor c.anchor_id (rival s) ≡ some x =
        commits.keeps_anchor ∙ get_anchor-get c.anchor_id s x r planned.is_the_fact in
      rw
        (
          p,
          planned.is_merged,
          write_revision-written c made (rival s) x commits.sound refl (ground arith) here h,
        )
        refl

  -- A correction that is written raises a task that names it, the revision before it and the records
  -- of the fact, if there are such records, and otherwise none. The tasks that were there stay.
  pub after_correction-flags :
      (deps : List (List ℕ)) (rival : Store I → Store I) (c : Revise) (s : Store I) (x : Anchor I)
      (r new : Revision)
      → prepare known validate check_fact c s ≡ ok ((x, r), some new)
      → is_initial c.revision_type ≡ false
      → Commits c s (rival s)
      → is_newest c.based_on_revision_id (history c.anchor_id (rival s).revisions) ≡ true
      → after_correction deps c (apply_revision known validate check_fact rival c s) ≡ (
        ok (wrote x new),
        record (rival s) {
          revisions =
              map (retire c.based_on_revision_id c.anchor_id c.rev_id) (rival s).revisions
              ++ new ∷ [];
          tasks = (rival s).tasks ++ superseded_tasks deps c;
        },
      )
  after_correction-flags deps rival c s x r new p n commits h =
      let planned = prepare-IsPlanned known validate check_fact c s (x, r) new p in
      let made = new_revision c planned.current in
      let rows =
        map (retire c.based_on_revision_id c.anchor_id c.rev_id) (rival s).revisions ++ made ∷ [] in
      let now : get_current_revision c.anchor_id rows ≡ some made =
        current-appended c.based_on_revision_id made (rival s).revisions commits.sound
          (ground arith) h in
      rw
        (
          apply_revision-written rival c s x r new p n commits h,
          planned.is_merged,
          now,
          flag_dependents_on_correction-raises deps c (record (rival s) { revisions = rows }),
        )
        refl
