-- ===== src/Facts/Effects.antt =====
-- What the commands of the four stores do besides the revision that they write.
use business_execution_ledge.Base.{
  ℕ, ◌≡◌, refl, ap, ◌∙◌, Bool, true, false, ◌&&◌, Option, some, List, [], ◌∷◌, ◌++◌, map, arith,
  ◌==◌, present, if◌then◌else◌, Bool-cases, inl, inr,
}
use business_execution_ledge.Base.Lists.{any, all}
use business_execution_ledge.Match.Text.{Unicode}
use business_execution_ledge.Facts.Rows.{
  Value, Fields, Revision, supplement, correction, Anchor, Store, Task, Detail, ok, none_asserted,
  unknown_field, require, bind-ok, require-ok,
}
use business_execution_ledge.Facts.Fields.{has_field, merged, all_known}
use business_execution_ledge.Facts.Repository.{retire}
use business_execution_ledge.Facts.Revise.{Revise, prepare}
use business_execution_ledge.Facts.History.{history, is_newest}
use business_execution_ledge.Facts.Outcome.{Commits, wrote}
use business_execution_ledge.Facts.Command.{prepare-IsPlanned}
use business_execution_ledge.Facts.Flags.{
  apply_revision-written, superseded_tasks, after_correction-flags,
}
use business_execution_ledge.Facts.Dependents.{References, dependents}
use business_execution_ledge.Facts.Notices.{is_unresolved_for, is_open_task, resolved, resolve_open}
use business_execution_ledge.Facts.Items.{
  ItemIdentity, contract_item_fact_fields, validate_item_fields, apply_item_revision,
  correct_contract_item_fact,
}
use business_execution_ledge.Facts.SalesContracts.{
  SalesIdentity, SalesStore, sales_contract_fact_fields, validate_sales_fields, resolve_customer,
  apply_sales_revision, supplement_sales_contract_fact,
}

-- A call with its type set.
abbrev pub as_correction : Revise → Revise
as_correction c = record c { revision_type = correction }

abbrev pub as_supplement : Revise → Revise
as_supplement c = record c { revision_type = supplement }

-- A correction of a contract item that finds its revision still the newest when it writes reports
-- the new revision and writes it, and raises one task that names both revisions and every record of
-- the four tables that names the item, if one does, and otherwise no task.
pub correct_contract_item_fact-flags :
    (u : Unicode) (tables : List References) (rival : Store ItemIdentity → Store ItemIdentity)
    (c : Revise) (s : Store ItemIdentity) (x : Anchor ItemIdentity) (r new : Revision)
    → prepare contract_item_fact_fields
        (validate_item_fields u)
        (λ x fields. ok tt)
        (as_correction c)
        s
      ≡ ok ((x, r), some new)
    → Commits (as_correction c) s (rival s)
    → is_newest c.based_on_revision_id (history c.anchor_id (rival s).revisions) ≡ true
    → correct_contract_item_fact u tables rival c s ≡ (
      ok (wrote x new),
      record (rival s) {
        revisions =
            map (retire c.based_on_revision_id c.anchor_id c.rev_id) (rival s).revisions
            ++ new ∷ [];
        tasks = (rival s).tasks ++ superseded_tasks (dependents c.anchor_id tables) c;
      },
    )
unfolding correct_contract_item_fact apply_item_revision
correct_contract_item_fact-flags u tables rival c s x r new p commits h =
    after_correction-flags contract_item_fact_fields (validate_item_fields u) (λ x fields. ok tt)
      (dependents c.anchor_id tables) rival (as_correction c) s x r new p refl commits h

field-present :
    (k : ℕ) (fields : Fields) (values : ℕ → Option Value)
    → has_field k fields ≡ true
    → all (λ x. present x.1) fields ≡ true
    → present (merged values fields k) ≡ true
unfolding merged
field-present k [] values h e = cc
field-present k (x ∷ xs) values h e = elim (Bool-cases (x.0 == k)) [
  | inl same ↦ rw same (ground arith)
  | inr other ↦ rw other (field-present k xs values (ground arith) (ground arith))
]

sales-present :
    (u : Unicode) (fields : Fields)
    → validate_sales_fields u fields ≡ ok tt
    → all (λ x. present x.1) fields ≡ true
unfolding validate_sales_fields
sales-present u fields h =
    let (v, _, h1) =
      bind-ok (require (all_known sales_contract_fact_fields fields) unknown_field) _ _ h in
    let (w, e, h2) = bind-ok (require (all (λ x. present x.1) fields) none_asserted) _ _ h1 in
    require-ok (all (λ x. present x.1) fields) none_asserted w e

none_open-resolved :
    (p : Detail → Bool) (ts : List Task) → any (is_open_task p) (map (resolved p) ts) ≡ false
none_open-resolved p [] = refl
none_open-resolved p (t ∷ ts) = ground (arith, none_open-resolved p ts)

open-resolved_other :
    (a b : ℕ) (ts : List Task)
    → (a == b) ≡ false
    → any (is_open_task (is_unresolved_for b)) (map (resolved (is_unresolved_for a)) ts)
      ≡ any (is_open_task (is_unresolved_for b)) ts
open-resolved_other a b [] h = refl
open-resolved_other a b (t ∷ ts) h = ground (arith, open-resolved_other a b ts)

resolve_customer-tasks :
    (c : Revise) (x : Anchor SalesIdentity) (new : Revision) (t : SalesStore)
    → (has_field 2 c.fields ≡ true → present (new.values 2) ≡ true)
    → resolve_customer c (ok (wrote x new), t) ≡ (
      ok (wrote x new),
      (if has_field 2 c.fields then resolve_open (is_unresolved_for c.anchor_id) t else t),
    )
resolve_customer-tasks c x new t h = elim (Bool-cases (has_field 2 c.fields)) [
  | inl e ↦ rw (e, h e) refl
  | inr e ↦ rw e refl
]

open-after :
    (a b : ℕ) (ts : List Task)
    → any (is_open_task (is_unresolved_for b)) (map (resolved (is_unresolved_for a)) ts)
      ≡ (if a == b then false else any (is_open_task (is_unresolved_for b)) ts)
open-after a b ts = elim (Bool-cases (a == b)) [
  | inl e ↦
      let same : a ≡ b = ground arith in rw (e, same) (none_open-resolved (is_unresolved_for b) ts)
  | inr e ↦ rw e (open-resolved_other a b ts e)
]

-- A supplement of a sales contract that finds its revision still the newest when it writes reports
-- the new revision. A task about an unresolved customer of a sales contract `b` is then open exactly
-- when one was, save for the contract of the supplement where the supplement gives the customer: no
-- such task of that contract is open. Where it does not give the customer, the tasks stay.
pub supplement_sales_contract_fact-closes :
    (u : Unicode) (rival : SalesStore → SalesStore) (c : Revise) (s : SalesStore)
    (x : Anchor SalesIdentity) (r new : Revision) (b : ℕ)
    → prepare sales_contract_fact_fields
        (validate_sales_fields u)
        (λ x fields. ok tt)
        (as_supplement c)
        s
      ≡ ok ((x, r), some new)
    → Commits (as_supplement c) s (rival s)
    → is_newest c.based_on_revision_id (history c.anchor_id (rival s).revisions) ≡ true
    → let t = record (rival s) {
      revisions =
          map (retire c.based_on_revision_id c.anchor_id c.rev_id) (rival s).revisions ++ new ∷ [];
    } in
      let (result, s') = supplement_sales_contract_fact u rival c s in
      (result ≡ ok (wrote x new))
      × (any (is_open_task (is_unresolved_for b)) s'.tasks ≡ (
          if has_field 2 c.fields && c.anchor_id == b
          then false
          else any (is_open_task (is_unresolved_for b)) (rival s).tasks))
      × (s' ≡ record t {
        tasks =
            if has_field 2 c.fields
            then map (resolved (is_unresolved_for c.anchor_id)) t.tasks
            else t.tasks;
      })
unfolding supplement_sales_contract_fact apply_sales_revision resolve_open
supplement_sales_contract_fact-closes u rival c s x r new b p commits h =
    let planned =
      prepare-IsPlanned sales_contract_fact_fields (validate_sales_fields u) (λ x fields. ok tt)
        (as_supplement c) s (x, r) new p in
    let given : has_field 2 c.fields ≡ true → present (new.values 2) ≡ true = λ e.
      ap (λ (w : Revision). present (w.values 2)) planned.is_merged
      ∙ field-present 2 c.fields planned.current.values e
          (sales-present u c.fields planned.is_valid) in
    let t = record (rival s) {
      revisions =
          map (retire c.based_on_revision_id c.anchor_id c.rev_id) (rival s).revisions ++ new ∷ [];
    } in
    rw
      (
        apply_revision-written sales_contract_fact_fields (validate_sales_fields u)
            (λ x fields. ok tt) rival (as_supplement c) s x r new p refl commits h,
        resolve_customer-tasks c x new t given,
      )
      (elim (Bool-cases (has_field 2 c.fields)) [
        | inl e ↦ rw e (refl, open-after c.anchor_id b (rival s).tasks, refl)
        | inr e ↦ rw e (refl, refl, refl)
      ])
