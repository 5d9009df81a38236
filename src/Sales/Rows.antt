-- ===== src/Sales/Rows.antt =====
-- The rows of sales matching and the statements on them: domain/matching.py,
-- SalesInvoiceAllocationRepository, SalesPaymentAllocationRepository, SalesMatchCandidateRepository and
-- MatchCaseRepository. The two legs are alike; `t` says which one a function works on.
use business_execution_ledge.Base.{
  ℕ, ◌≡◌, refl, Bool, true, false, ◌&&◌, Option, none, some, List, [], ◌∷◌, ◌++◌, map, ◌==◌,
  if◌then◌else◌,
}
use business_execution_ledge.Base.Int.{ℤ, pos, ◌+ℤ◌}
use business_execution_ledge.Base.Lists.{any, count}
use business_execution_ledge.Match.Rows.{
  SubjectType, invoice_subject, payment_subject, same_type, MatchCase, MatchCaseStatus,
  human_confirmation_required, resolved,
}

-- An invoice or a payment, as sales matching reads it: `is_sales` says that the invoice is a SALES
-- one, or that the payment is an IN one.
pub record SalesSubject : Type 0 where
  pub id : ℕ
  pub is_sales : Bool
  pub amount : ℤ

pub record SalesCandidate : Type 0 where
  pub match_case_id : ℕ
  pub sales_contract_id : ℕ
  pub created_at : ℕ

-- Every allocation is HUMAN_CONFIRMED.
pub record SalesAllocation : Type 0 where
  pub subject_id : ℕ
  pub sales_contract_id : ℕ
  pub match_case_id : ℕ
  pub amount : ℤ
  pub created_at : ℕ

pub record SalesDb : Type 0 where
  pub match_cases : List MatchCase
  pub candidates : List SalesCandidate
  pub invoice_allocations : List SalesAllocation
  pub payment_allocations : List SalesAllocation

pub data SalesRefusal : Type 0 where
  nothing_given : SalesRefusal
  given_twice : SalesRefusal
  sales_contract_not_found : SalesRefusal
  subject_not_found : SalesRefusal
  wrong_direction : SalesRefusal
  case_not_found : SalesRefusal
  wrong_subject : SalesRefusal
  case_not_pending : SalesRefusal
  bad_amount : SalesRefusal
  over_capacity : SalesRefusal
  other_proposal : SalesRefusal
  other_confirmation : SalesRefusal
  confirmed_concurrently : SalesRefusal
  assertion_failed : SalesRefusal

pub data SalesResult (A : Type 0) : Type 0 where
  ok : A → SalesResult A
  err : SalesRefusal → SalesResult A

infixl 5 ◌>>=◌ ◌>>◌
abbrev pub ◌>>=◌ : {A B : Type 0} → SalesResult A → (A → SalesResult B) → SalesResult B
ok a >>= f = f a
err e >>= f = err e

abbrev pub ◌>>◌ : {A B : Type 0} → SalesResult A → SalesResult B → SalesResult B
m >> k = m >>= λ _. k

abbrev pub check : Bool → SalesRefusal → SalesResult Unit
check true e = ok tt
check false e = err e

abbrev pub found : {A : Type 0} → Option A → SalesRefusal → SalesResult A
found none e = err e
found (some a) e = ok a

pub bind-ok :
    {A B : Type 0} (m : SalesResult A) (f : A → SalesResult B) (b : B)
    → (m >>= f) ≡ ok b
    → (a : A) × (m ≡ ok a) × (f a ≡ ok b)
bind-ok (ok a) f b h = (a, refl, h)
bind-ok (err e) f b h = cc

pub check-ok : (b : Bool) (e : SalesRefusal) (u : Unit) → check b e ≡ ok u → b ≡ true
check-ok true e u h = refl
check-ok false e u h = cc

pub found-ok :
    {A : Type 0} (o : Option A) (e : SalesRefusal) (a : A) → found o e ≡ ok a → o ≡ some a
found-ok none e a h = cc
found-ok (some b) e a h = cc

-- The allocations of a leg.
abbrev pub sales_allocations : SubjectType → SalesDb → List SalesAllocation
sales_allocations invoice_subject db = db.invoice_allocations
sales_allocations payment_subject db = db.payment_allocations

abbrev pub insert_sales_allocation : SubjectType → SalesAllocation → SalesDb → SalesDb
insert_sales_allocation invoice_subject a db = record db {
  invoice_allocations = db.invoice_allocations ++ a ∷ [];
}
insert_sales_allocation payment_subject a db = record db {
  payment_allocations = db.payment_allocations ++ a ∷ [];
}

-- `sum_for_invoice` and `sum_for_payment`.
unfoldable pub sum_for_subject : ℕ → List SalesAllocation → ℤ
sum_for_subject i [] = pos 0
sum_for_subject i (a ∷ as') =
    let rest = sum_for_subject i as' in if a.subject_id == i then a.amount +ℤ rest else rest

abbrev pub is_case : ℕ → MatchCase → Bool
is_case i c = c.id == i

abbrev pub is_case_for : SubjectType → ℕ → MatchCase → Bool
is_case_for t i c = same_type c.subject_type t && c.subject_id == i

abbrev pub is_pending : MatchCaseStatus → Bool
is_pending human_confirmation_required = true
is_pending _ = false

abbrev pub is_resolved : MatchCaseStatus → Bool
is_resolved resolved = true
is_resolved _ = false

-- `add_if_no_case_for_subject`, one statement.
unfoldable pub add_if_no_case_for_subject : MatchCase → SalesDb → Bool × SalesDb
add_if_no_case_for_subject c db =
    if any (is_case_for c.subject_type c.subject_id) db.match_cases
    then (false, db)
    else (true, record db { match_cases = db.match_cases ++ c ∷ [] })

-- `resolve_if_pending`, one statement.
abbrev pub is_pending_case : ℕ → MatchCase → Bool
is_pending_case i c = is_case i c && is_pending c.status

abbrev pub resolve_case : ℕ → ℕ → MatchCase → MatchCase
resolve_case i now c =
    if is_pending_case i c then record c { status = resolved; resolved_at = some now } else c

unfoldable pub resolve_if_pending : ℕ → ℕ → SalesDb → Bool × SalesDb
resolve_if_pending i now db =
    let cases = map (resolve_case i now) db.match_cases in
    (count (is_pending_case i) db.match_cases == 1, record db { match_cases = cases })
