-- ===== src/Match/Payments.antt =====
-- `match_payments` of application/matching.py, over domain/payment.py.
use business_execution_ledge.Base.{
  ℕ, Bool, true, false, ◌&&◌, ◌||◌, Option, none, some, List, [], ltb, ◌==◌, eq_option,
  if◌then◌else◌,
}
use business_execution_ledge.Base.Lists.{filter}
use business_execution_ledge.Base.Int.{ℤ, ltb_ℤ, ◌==ℤ◌}
use business_execution_ledge.Match.Text.{Text, Unicode, text_eq, text_ltb, is_blank}
use business_execution_ledge.Match.Rows.{Contract, Db, payment_subject}
use business_execution_ledge.Match.Candidates.{date_ltb, date_eq, contract_ltb, sorted}
use business_execution_ledge.Match.Subjects.{Subjects, PassState}
use business_execution_ledge.Match.Pass.{run_match_pass}

pub data PaymentDirection : Type 0 where
  payment_in : PaymentDirection
  payment_out : PaymentDirection

abbrev pub is_out : PaymentDirection → Bool
is_out payment_in = false
is_out payment_out = true

abbrev pub same_direction : PaymentDirection → PaymentDirection → Bool
same_direction payment_in payment_in = true
same_direction payment_out payment_out = true
same_direction _ _ = false

-- "IN" is before "OUT".
abbrev direction_ltb : PaymentDirection → PaymentDirection → Bool
direction_ltb payment_in payment_out = true
direction_ltb _ _ = false

pub record Payment : Type 0 where
  pub id : ℕ
  pub transaction_date : Option ℕ
  pub direction : PaymentDirection
  pub amount : ℤ
  pub counterparty : Option Text
  pub business_type : Option Text
  pub bank_reference : Option Text
  pub description : Option Text
  pub source_account_id : Option Text

pub record PaymentIdentity : Type 0 where
  pub source_account_id : Text
  pub transaction_date : ℕ
  pub direction : PaymentDirection
  pub amount : ℤ
  pub bank_reference : Text

-- `not value` of an optional string.
abbrev usable : Option Text → Option Text
usable none = none
usable (some t) = if is_blank t then none else some t

unfoldable pub payment_canonical_identity : Payment → Option PaymentIdentity
payment_canonical_identity p = elim (usable p.source_account_id) [
  | none ↦ none
  | some account ↦ elim (usable p.bank_reference) [
    | none ↦ none
    | some reference ↦ elim p.transaction_date [
      | none ↦ none
      | some date ↦ some (record {
        source_account_id = account;
        transaction_date = date;
        direction = p.direction;
        amount = p.amount;
        bank_reference = reference;
      })
    ]
  ]
]

unfoldable pub identity_eq : PaymentIdentity → PaymentIdentity → Bool
identity_eq a b =
    text_eq a.source_account_id b.source_account_id
    && (a.transaction_date == b.transaction_date
        && (same_direction a.direction b.direction
            && (a.amount ==ℤ b.amount && text_eq a.bank_reference b.bank_reference)))

unfoldable pub identity_before : PaymentIdentity → PaymentIdentity → Bool
identity_before a b =
    text_ltb a.source_account_id b.source_account_id
    || (text_eq a.source_account_id b.source_account_id
        && (ltb a.transaction_date b.transaction_date
            || (a.transaction_date == b.transaction_date
                && (direction_ltb a.direction b.direction
                    || (same_direction a.direction b.direction
                        && (ltb_ℤ a.amount b.amount
                            || (a.amount ==ℤ b.amount
                                && text_ltb a.bank_reference b.bank_reference)))))))

-- Equality of two `payment_equivalence_state`s.
unfoldable pub payment_state_eq : Payment → Payment → Bool
payment_state_eq p q =
    date_eq p.transaction_date q.transaction_date
    && (same_direction p.direction q.direction
        && (eq_option text_eq p.counterparty q.counterparty
            && (p.amount ==ℤ q.amount
                && (eq_option text_eq p.source_account_id q.source_account_id
                    && (eq_option text_eq p.business_type q.business_type
                        && eq_option text_eq p.description q.description)))))

-- `payment.bank_reference or ""`.
abbrev reference : Payment → Text
reference p = elim p.bank_reference [ none ↦ [] | some t ↦ t ]

unfoldable pub payment_ltb : Payment → Payment → Bool
payment_ltb p q =
    date_ltb p.transaction_date q.transaction_date
    || (date_eq p.transaction_date q.transaction_date
        && (text_ltb (reference p) (reference q)
            || (text_eq (reference p) (reference q) && ltb p.id q.id)))

abbrev pub payment_subjects : Subjects Payment PaymentIdentity Payment
payment_subjects = record {
  subject_type = payment_subject;
  get_id = λ (p : Payment). p.id;
  get_amount = λ (p : Payment). p.amount;
  get_counterparty = λ (p : Payment). p.counterparty;
  get_date = λ (p : Payment). p.transaction_date;
  get_identity = payment_canonical_identity;
  key_eq = identity_eq;
  key_ltb = identity_before;
  get_state = λ (p : Payment). p;
  state_eq = payment_state_eq;
}

unfoldable pub match_payments :
    Unicode → (ℕ → ℕ) → ℕ → List Contract → List Payment → Db → PassState
match_payments u draw now contracts payments db =
    run_match_pass u payment_subjects (sorted contract_ltb contracts) draw now
      (sorted payment_ltb (filter (λ (p : Payment). is_out p.direction) payments)) db
