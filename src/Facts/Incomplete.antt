-- ===== src/Facts/Incomplete.antt =====
-- Creates that cannot be decided leave a task, and leave it once.
use business_execution_ledge.Base.{
  ℕ, ◌≡◌, refl, ap, ◌∙◌, Bool, true, Option, none, [], ◌∷◌, Bool-cases, ==_self, inl, inr,
}
use business_execution_ledge.Base.Lists.{any, any-append}
use business_execution_ledge.Match.Text.{Text, Unicode}
use business_execution_ledge.Facts.Rows.{Store, Detail, identity_incomplete, incomplete, ok, err}
use business_execution_ledge.Facts.Create.{Create}
use business_execution_ledge.Facts.Notices.{is_incomplete_for, is_open_task, raise_once}
use business_execution_ledge.Facts.SalesContracts.{
  SalesStore, check_sales, complete_identity, create_sales_contract_fact,
}

module _ {I : Type 0} where
  -- After a task has been raised, one like it is open, and raising it again changes nothing.
  pub raise_once-open :
      (p : Detail → Bool) (d : Detail) (now : ℕ) (s : Store I)
      → p d ≡ true
      → any (is_open_task p) (raise_once p d now s).tasks ≡ true
  unfolding raise_once
  raise_once-open p d now s h = elim (Bool-cases (any (is_open_task p) s.tasks)) [
    | inl e ↦ rw e e
    | inr e ↦ rw e (
        any-append (is_open_task p) s.tasks
          (record { detail = d; is_open = true; created_at = now } ∷ [])
        ∙ rw (e, h) refl)
  ]

  pub raise_once-keeps :
      (p : Detail → Bool) (d : Detail) (now : ℕ) (s : Store I)
      → ((raise_once p d now s).anchors ≡ s.anchors)
        × ((raise_once p d now s).revisions ≡ s.revisions)
        × ((raise_once p d now s).fragments ≡ s.fragments)
  unfolding raise_once
  raise_once-keeps p d now s = elim (Bool-cases (any (is_open_task p) s.tasks)) [
    | inl e ↦ rw e (refl, refl, refl)
    | inr e ↦ rw e (refl, refl, refl)
  ]

  raise_once-again :
      (p : Detail → Bool) (d : Detail) (now : ℕ) (s : Store I)
      → any (is_open_task p) s.tasks ≡ true
      → raise_once p d now s ≡ s
  unfolding raise_once
  raise_once-again p d now s h = rw h refl

check_sales-same :
    (u : Unicode) (c : Create) (s t : SalesStore)
    → t.fragments ≡ s.fragments
    → check_sales u c t ≡ check_sales u c s
unfolding check_sales
check_sales-same u c s t e = rw e refl

-- A create of a sales contract that names no entity or no contract number, or an empty one, but is
-- otherwise valid, is refused as incomplete. It writes no anchor and no revision, and leaves a task
-- about its evidence open; the same create again is refused alike and changes nothing.
pub create_sales_contract_fact-incomplete :
    (u : Unicode) (our_entity sales_contract_no : Option Text) (c : Create) (s : SalesStore)
    → complete_identity our_entity sales_contract_no ≡ none
    → check_sales u c s ≡ ok tt
    → let (result, s') = create_sales_contract_fact u our_entity sales_contract_no c s in
      (result ≡ err incomplete)
      × (s'.anchors ≡ s.anchors)
      × (s'.revisions ≡ s.revisions)
      × (any (is_open_task (is_incomplete_for c.source_fragment_id)) s'.tasks ≡ true)
      × (create_sales_contract_fact u our_entity sales_contract_no c s' ≡ (err incomplete, s'))
unfolding create_sales_contract_fact
create_sales_contract_fact-incomplete u our_entity sales_contract_no c s missing passed =
    let p = is_incomplete_for c.source_fragment_id in
    let d = identity_incomplete c.source_fragment_id in
    let s' = raise_once p d c.created_at s in
    let (anchors, revisions, fragments) = raise_once-keeps p d c.created_at s in
    let raised = raise_once-open p d c.created_at s (==_self c.source_fragment_id) in
    let passed' : check_sales u c s' ≡ ok tt = check_sales-same u c s s' fragments ∙ passed in
    rw (passed, missing, passed')
      (
        refl,
        anchors,
        revisions,
        raised,
        ap (λ (t : SalesStore). (err incomplete, t)) (raise_once-again p d c.created_at s' raised),
      )
