-- ===== src/Match/Confirm.antt =====
-- `confirm_match` of application/matching.py: a human's answer to a case that waits for one. It
-- raises before its first write, so an error leaves the tables as they were.
use business_execution_ledge.Base.{
  ℕ, Bool, true, false, not, Option, none, some, List, [], ◌∷◌, ◌++◌, ◌==◌, if◌then◌else◌,
}
use business_execution_ledge.Base.Lists.{find}
use business_execution_ledge.Base.Int.{ℤ, ◌+ℤ◌, ltb_ℤ}
use business_execution_ledge.Match.Rows.{
  Contract, SubjectType, invoice_subject, payment_subject, MatchCase, MatchCaseStatus,
  human_confirmation_required, resolved, unique_candidate, human_confirmed, Db,
  human_confirmed_event, get_case, add_allocation, sum_confirmed_for_contract,
}
use business_execution_ledge.Match.Invoices.{Invoice, is_purchase}
use business_execution_ledge.Match.Payments.{Payment, is_out}

pub data ConfirmError : Type 0 where
  case_not_found : ConfirmError
  not_waiting : ConfirmError
  contract_not_found : ConfirmError
  subject_not_found : ConfirmError
  wrong_direction : ConfirmError
  over_capacity : ConfirmError
  unknown_case : ConfirmError

pub data Outcome : Type 0 where
  confirmed : Db → Outcome
  refused : ConfirmError → Outcome

abbrev pub is_waiting : MatchCaseStatus → Bool
is_waiting human_confirmation_required = true
is_waiting _ = false

-- `MatchCaseRepository.update_status`, KeyError included.
abbrev pub update_status : ℕ → MatchCaseStatus → Option ℕ → List MatchCase → Option (List MatchCase)
update_status i status at [] = none
update_status i status at (c ∷ cs) =
    let rest = update_status i status at cs in
    if c.id == i
    then some (record c { status = status; resolved_at = at } ∷ cs)
    else elim rest [ none ↦ none | some cs' ↦ some (c ∷ cs') ]

module _ (contracts : List Contract) (invoices : List Invoice) (payments : List Payment)
    (now : ℕ) where
  abbrev pub get_contract : ℕ → Option Contract
  get_contract i = find (λ (c : Contract). c.id == i) contracts

  abbrev pub get_invoice : ℕ → Option Invoice
  get_invoice i = find (λ (x : Invoice). x.id == i) invoices

  abbrev pub get_payment : ℕ → Option Payment
  get_payment i = find (λ (x : Payment). x.id == i) payments

  abbrev pub resolve : ℕ → ℕ → Db → Outcome
  resolve case_id contract_id db = elim (update_status case_id resolved (some now) db.match_cases) [
    | none ↦ refused unknown_case
    | some cases ↦ confirmed (record db {
      match_cases = cases;
      events = db.events ++ human_confirmed_event case_id contract_id ∷ [];
    })
  ]

  -- The capacity check and the allocation, alike in the two branches.
  unfoldable pub allocate : SubjectType → ℕ → ℤ → ℕ → Contract → Db → Outcome
  allocate t subject_id amount case_id contract db =
      if ltb_ℤ contract.gross_amount (sum_confirmed_for_contract t db contract.id +ℤ amount)
      then refused over_capacity
      else resolve case_id contract.id (
          add_allocation t
            (record {
              subject_id = subject_id;
              contract_id = contract.id;
              match_case_id = case_id;
              amount = amount;
              match_method = unique_candidate;
              confirmation_type = human_confirmed;
              created_at = now;
            })
            db)

  unfoldable pub confirm_subject : SubjectType → ℕ → ℕ → Contract → Db → Outcome
  confirm_subject invoice_subject subject_id case_id contract db = elim (get_invoice subject_id) [
    | none ↦ refused subject_not_found
    | some i ↦
        if not (is_purchase i.direction)
        then refused wrong_direction
        else allocate invoice_subject i.id i.gross_amount case_id contract db
  ]
  confirm_subject payment_subject subject_id case_id contract db = elim (get_payment subject_id) [
    | none ↦ refused subject_not_found
    | some p ↦
        if not (is_out p.direction)
        then refused wrong_direction
        else allocate payment_subject p.id p.amount case_id contract db
  ]

  unfoldable pub confirm_match : ℕ → ℕ → Db → Outcome
  confirm_match case_id contract_id db = elim (get_case db case_id) [
    | none ↦ refused case_not_found
    | some c ↦
        if not (is_waiting c.status) then refused not_waiting else elim (get_contract contract_id) [
          | none ↦ refused contract_not_found
          | some contract ↦ confirm_subject c.subject_type c.subject_id case_id contract db
        ]
  ]
