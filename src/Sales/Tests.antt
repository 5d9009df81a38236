-- ===== src/Sales/Tests.antt =====
-- A sales invoice of 100 is proposed to and confirmed for two sales contracts, and the theorems at it.
use business_execution_ledge.Base.{
  ℕ, ◌≤◌, ◌≡◌, refl, Bool, true, Option, none, some, [], ◌∷◌, arith, ◌==◌, if◌then◌else◌,
}
use business_execution_ledge.Base.Int.{ℤ, pos, ◌+ℤ◌}
use business_execution_ledge.Match.Rows.{
  invoice_subject, human_confirmation_required, manual_sales_scope,
}
use business_execution_ledge.Sales.Rows.{
  SalesSubject, SalesDb, sum_for_subject, resolve_if_pending, add_if_no_case_for_subject,
}
use business_execution_ledge.Sales.Propose.{
  Propose, check_proposal, validate_candidate_ids, propose_sales_match,
}
use business_execution_ledge.Sales.Confirm.{
  Confirm, validate_targets, validate_allocation_pairs, check_add, add_all, check_confirmation,
  check_pending, write_confirmation, confirm_sales_match,
}
use business_execution_ledge.Sales.Bounded.{Within, confirm_sales_match-bounded}
use business_execution_ledge.Sales.OneCase.{cases_of, propose_sales_match-one_case}
use business_execution_ledge.Sales.Once.{has_created, confirm_sales_match-once}

abbrev sales_invoice : SalesSubject
sales_invoice = record { id = 4; is_sales = true; amount = pos 100 }

abbrev subjects : ℕ → Option SalesSubject
subjects i = if i == 4 then some sales_invoice else none

abbrev exact : ℤ → Bool
exact a = true

abbrev no_cases : SalesDb
no_cases = record {
  match_cases = [];
  candidates = [];
  invoice_allocations = [];
  payment_allocations = [];
}

abbrev proposal : Propose
proposal = record {
  subject_type = invoice_subject;
  subject_id = 4;
  sales_contract_ids = 1 ∷ 2 ∷ [];
  case_id = 9;
  created_at = 5;
}

abbrev proposed : SalesDb
proposed = record no_cases {
  match_cases =
      record {
        id = 9;
        subject_type = invoice_subject;
        subject_id = 4;
        status = human_confirmation_required;
        match_method = manual_sales_scope;
        created_at = 5;
        resolved_at = none;
      }
      ∷ [];
}

abbrev confirmation : Confirm
confirmation = record {
  subject_type = invoice_subject;
  match_case_id = 9;
  allocations = (1, pos 60) ∷ (2, pos 40) ∷ [];
  created_at = 6;
}

-- The proposal writes the case.
proposal-run :
    (propose_sales_match subjects (1 ∷ 2 ∷ []) (λ db. db) proposal no_cases).1.match_cases
    ≡ proposed.match_cases
unfolding propose_sales_match check_proposal validate_candidate_ids add_if_no_case_for_subject
proposal-run = refl

-- The confirmation writes both allocations.
confirmation-run :
    has_created (confirm_sales_match exact subjects (1 ∷ 2 ∷ []) (λ db. db) confirmation proposed).0
    ≡ true
unfolding confirm_sales_match check_confirmation validate_allocation_pairs validate_targets
    check_pending write_confirmation add_all check_add resolve_if_pending sum_for_subject ◌+ℤ◌
confirmation-run = refl

confirm_sales_match-bounded_example :
    Within invoice_subject 4 sales_invoice
      (confirm_sales_match exact subjects (1 ∷ 2 ∷ []) (λ db. db) confirmation proposed).1
unfolding sum_for_subject
confirm_sales_match-bounded_example =
    confirm_sales_match-bounded exact subjects (1 ∷ 2 ∷ []) (λ db. db) confirmation proposed 4
      sales_invoice refl (omega arith) (omega arith)

propose_sales_match-one_case_example :
    cases_of invoice_subject 4
      (propose_sales_match subjects (1 ∷ 2 ∷ []) (λ db. db) proposal no_cases).1
    ≤ 1
propose_sales_match-one_case_example =
    propose_sales_match-one_case subjects (1 ∷ 2 ∷ []) (λ db. db) proposal no_cases invoice_subject
      4 (omega arith) (omega arith)

confirm_sales_match-once_example :
    let db' =
      (confirm_sales_match exact subjects (1 ∷ 2 ∷ []) (λ db. db) confirmation proposed).1 in
    (confirm_sales_match exact subjects
      (1 ∷ 2 ∷ [])
      (λ db. db)
      (record confirmation { allocations = (1, pos 100) ∷ [] })
      db').1
    ≡ db'
confirm_sales_match-once_example =
    confirm_sales_match-once exact subjects (1 ∷ 2 ∷ []) (λ db. db) (λ db. db) confirmation
      (record confirmation { allocations = (1, pos 100) ∷ [] }) proposed (omega arith) refl
      confirmation-run
