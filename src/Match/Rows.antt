-- ===== src/Match/Rows.antt =====
-- The rows that matching reads and writes: domain/contract.py, domain/matching.py, and the parts of
-- domain/exception.py and domain/event.py that it uses. Row ids that no other row names are left out.
use business_execution_ledge.Base.{
  ℕ, Bool, true, false, Option, List, [], ◌∷◌, ◌++◌, ◌==◌, if◌then◌else◌,
}
use business_execution_ledge.Base.Lists.{find}
use business_execution_ledge.Base.Int.{ℤ, pos, ◌+ℤ◌}
use business_execution_ledge.Match.Text.{Text}

pub record Contract : Type 0 where
  pub id : ℕ
  pub contract_no : Text
  pub contract_type : Option Text
  pub counterparty : Option Text
  pub buyer : Option Text
  pub gross_amount : ℤ
  pub currency : Text
  pub contract_date : Option ℕ

pub data SubjectType : Type 0 where
  invoice_subject : SubjectType
  payment_subject : SubjectType

abbrev pub same_type : SubjectType → SubjectType → Bool
same_type invoice_subject invoice_subject = true
same_type payment_subject payment_subject = true
same_type _ _ = false

pub data MatchCaseStatus : Type 0 where
  case_auto_confirmed : MatchCaseStatus
  human_confirmation_required : MatchCaseStatus
  resolved : MatchCaseStatus
  rejected : MatchCaseStatus
  unmatched : MatchCaseStatus

pub data MatchMethod : Type 0 where
  m001 : MatchMethod
  manual_sales_scope : MatchMethod

pub data AllocationMatchMethod : Type 0 where
  unique_candidate : AllocationMatchMethod
  chronological : AllocationMatchMethod
  equivalent_canonical : AllocationMatchMethod

pub data ConfirmationType : Type 0 where
  auto_confirmed : ConfirmationType
  human_confirmed : ConfirmationType

pub record MatchCase : Type 0 where
  pub id : ℕ
  pub subject_type : SubjectType
  pub subject_id : ℕ
  pub status : MatchCaseStatus
  pub match_method : MatchMethod
  pub created_at : ℕ
  pub resolved_at : Option ℕ

pub record MatchCandidate : Type 0 where
  pub match_case_id : ℕ
  pub contract_id : ℕ
  pub created_at : ℕ

-- InvoiceAllocation and PaymentAllocation have one shape: `subject_id` is the invoice or the
-- payment, `amount` the allocated amount.
pub record Allocation : Type 0 where
  pub subject_id : ℕ
  pub contract_id : ℕ
  pub match_case_id : ℕ
  pub amount : ℤ
  pub match_method : AllocationMatchMethod
  pub confirmation_type : ConfirmationType
  pub created_at : ℕ

-- The ALLOCATION_CAPACITY_EXCEEDED exception, with its `detail`.
pub record CapacityTask : Type 0 where
  pub subject_type : SubjectType
  pub subject_id : ℕ
  pub contract_id : ℕ
  pub already_allocated : ℤ
  pub attempted_amount : ℤ
  pub contract_gross_amount : ℤ
  pub created_at : ℕ

pub data BusinessEvent : Type 0 where
  auto_confirmed_event : SubjectType → ℕ → ℕ → ℤ → BusinessEvent
  human_required_event : SubjectType → ℕ → List ℕ → BusinessEvent
  capacity_exceeded_event : SubjectType → ℕ → ℕ → BusinessEvent
  human_confirmed_event : ℕ → ℕ → BusinessEvent

pub record Db : Type 0 where
  pub match_cases : List MatchCase
  pub candidates : List MatchCandidate
  pub invoice_allocations : List Allocation
  pub payment_allocations : List Allocation
  pub exceptions : List CapacityTask
  pub events : List BusinessEvent

-- `MatchCaseRepository.find_by_subject` and `get`.
abbrev pub find_by_subject : Db → SubjectType → ℕ → Option MatchCase
find_by_subject db t i =
    find (λ (c : MatchCase). if same_type c.subject_type t then c.subject_id == i else false)
      db.match_cases

abbrev pub get_case : Db → ℕ → Option MatchCase
get_case db i = find (λ (c : MatchCase). c.id == i) db.match_cases

-- The allocation table of a leg, and `add` to it.
abbrev pub allocations_of : SubjectType → Db → List Allocation
allocations_of invoice_subject db = db.invoice_allocations
allocations_of payment_subject db = db.payment_allocations

abbrev pub add_allocation : SubjectType → Allocation → Db → Db
add_allocation invoice_subject a db = record db {
  invoice_allocations = db.invoice_allocations ++ a ∷ [];
}
add_allocation payment_subject a db = record db {
  payment_allocations = db.payment_allocations ++ a ∷ [];
}

unfoldable pub sum_for : ℕ → List Allocation → ℤ
sum_for c [] = pos 0
sum_for c (a ∷ rest) = let r = sum_for c rest in if a.contract_id == c then a.amount +ℤ r else r

-- `sum_confirmed_for_contract`: every row of the contract, whatever its confirmation.
abbrev pub sum_confirmed_for_contract : SubjectType → Db → ℕ → ℤ
sum_confirmed_for_contract t db c = sum_for c (allocations_of t db)
