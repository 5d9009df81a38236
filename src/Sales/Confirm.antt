-- ===== src/Sales/Confirm.antt =====
-- `confirm_sales_invoice_match` and `confirm_sales_payment_match`, and the `add` of the two
-- allocation tables below them. `survives` stands for `Decimal(str(float(amount))) == amount`.
use business_execution_ledge.Base.{
  ℕ, Bool, true, false, ◌&&◌, not, Option, List, [], ◌∷◌, map, ◌==◌, if◌then◌else◌,
}
use business_execution_ledge.Base.Int.{ℤ, pos, ◌+ℤ◌, ◌==ℤ◌, leb_ℤ, ltb_ℤ}
use business_execution_ledge.Base.Lists.{any, all, filter, find}
use business_execution_ledge.Match.Cohorts.{has_twice}
use business_execution_ledge.Match.Rows.{SubjectType, same_type, MatchCase}
use business_execution_ledge.Sales.Rows.{
  SalesSubject, SalesAllocation, SalesDb, SalesRefusal, nothing_given, given_twice,
  sales_contract_not_found, subject_not_found, wrong_direction, case_not_found, wrong_subject,
  case_not_pending, bad_amount, over_capacity, other_confirmation, confirmed_concurrently,
  assertion_failed, SalesResult, ok, err, ◌>>=◌, ◌>>◌, check, found, sales_allocations,
  insert_sales_allocation, sum_for_subject, is_case, is_pending, is_resolved, resolve_if_pending,
}
use business_execution_ledge.Sales.Propose.{is_given, is_among}

-- A call: the pairs are a sales contract and an amount in hundredths.
pub record Confirm : Type 0 where
  pub subject_type : SubjectType
  pub match_case_id : ℕ
  pub allocations : List (ℕ × ℤ)
  pub created_at : ℕ

pub record ConfirmationResult : Type 0 where
  pub match_case : MatchCase
  pub allocations : List SalesAllocation
  pub created : Bool
  pub replay : Bool

abbrev pub pair_eq : ℕ × ℤ → ℕ × ℤ → Bool
pair_eq x y = x.0 == y.0 && x.1 ==ℤ y.1

abbrev pub has_pair : List (ℕ × ℤ) → ℕ × ℤ → Bool
has_pair xs x = any (pair_eq x) xs

abbrev pub same_pairs : List (ℕ × ℤ) → List (ℕ × ℤ) → Bool
same_pairs xs ys = all (has_pair ys) xs && all (has_pair xs) ys

abbrev pub pair_of : SalesAllocation → ℕ × ℤ
pair_of a = (a.sales_contract_id, a.amount)

-- The allocations that a case has given a subject.
abbrev pub existing_allocations : SubjectType → ℕ → ℕ → SalesDb → List SalesAllocation
existing_allocations t subject_id case_id db =
    filter (λ (a : SalesAllocation). a.subject_id == subject_id && a.match_case_id == case_id)
      (sales_allocations t db)

abbrev pub total : List (ℕ × ℤ) → ℤ
total [] = pos 0
total (x ∷ xs) = x.1 +ℤ total xs

abbrev pub new_allocation : Confirm → ℕ → ℕ × ℤ → SalesAllocation
new_allocation c subject_id x = record {
  subject_id = subject_id;
  sales_contract_id = x.0;
  match_case_id = c.match_case_id;
  amount = x.1;
  created_at = c.created_at;
}

module _ (survives : ℤ → Bool) where
  -- More than nothing, and less than 10^16 of currency.
  abbrev pub validate_storable_amount : ℤ → Bool
  validate_storable_amount a = ltb_ℤ (pos 0) a && (ltb_ℤ a (pos 1000000000000000000) && survives a)

  -- The loop over the pairs.
  unfoldable pub validate_targets : List ℕ → List (ℕ × ℤ) → SalesResult Unit
  validate_targets sales_contracts [] = ok tt
  validate_targets sales_contracts (x ∷ xs) =
      check (is_among sales_contracts x.0) sales_contract_not_found
      >> check (validate_storable_amount x.1) bad_amount
      >> validate_targets sales_contracts xs

  unfoldable pub validate_allocation_pairs : List ℕ → List (ℕ × ℤ) → SalesResult Unit
  validate_allocation_pairs sales_contracts pairs = do
    check (is_given pairs) nothing_given
    check (not (has_twice (λ i j. i == j) (map (λ x. x.0) pairs))) given_twice
    validate_targets sales_contracts pairs

  module _ (subjects : ℕ → Option SalesSubject) where
    -- `SalesInvoiceAllocationRepository.add` and its twin: the checks, and the conditional INSERT.
    unfoldable pub check_add : SubjectType → SalesAllocation → SalesDb → SalesResult Unit
    check_add t a db = do
      subject ← found (subjects a.subject_id) subject_not_found
      check subject.is_sales wrong_direction
      match_case ← found (find (is_case a.match_case_id) db.match_cases) case_not_found
      check (same_type match_case.subject_type t && match_case.subject_id == a.subject_id)
          wrong_subject
      check (is_pending match_case.status) case_not_pending
      check (validate_storable_amount a.amount) bad_amount
      check
          (leb_ℤ (sum_for_subject a.subject_id (sales_allocations t db) +ℤ a.amount) subject.amount)
          over_capacity

    abbrev pub add_sales_allocation : SubjectType → SalesAllocation → SalesDb → SalesResult SalesDb
    add_sales_allocation t a db = check_add t a db >> ok (insert_sales_allocation t a db)

    unfoldable pub add_all : SubjectType → List SalesAllocation → SalesDb → SalesResult SalesDb
    add_all t [] db = ok db
    add_all t (a ∷ as') db = add_sales_allocation t a db >>= add_all t as'

    -- A case that was resolved before answers for itself.
    abbrev pub replay_confirmation : Confirm → MatchCase → SalesDb → SalesResult ConfirmationResult
    replay_confirmation c match_case db =
        let existing =
          existing_allocations c.subject_type match_case.subject_id c.match_case_id db in
        if same_pairs (map pair_of existing) c.allocations
        then ok (record {
          match_case = match_case;
          allocations = existing;
          created = false;
          replay = true;
        })
        else err other_confirmation

    -- Everything before the first write. What it gives is the case and its subject.
    unfoldable pub check_confirmation :
        List ℕ → Confirm → SalesDb → SalesResult (MatchCase × SalesSubject)
    check_confirmation sales_contracts c db = do
      match_case ← found (find (is_case c.match_case_id) db.match_cases) case_not_found
      check (same_type match_case.subject_type c.subject_type) wrong_subject
      subject ← found (subjects match_case.subject_id) subject_not_found
      check subject.is_sales wrong_direction
      validate_allocation_pairs sales_contracts c.allocations
      ok (match_case, subject)

    unfoldable pub check_pending : Confirm → MatchCase → SalesSubject → SalesDb → SalesResult Unit
    check_pending c match_case subject db = do
      check (is_pending match_case.status) case_not_pending
      check
          (leb_ℤ
            (sum_for_subject match_case.subject_id (sales_allocations c.subject_type db)
              +ℤ total c.allocations)
            subject.amount)
          over_capacity

    -- What an error inside the savepoint becomes.
    abbrev pub race_or_error : SalesRefusal → SalesRefusal
    race_or_error case_not_pending = confirmed_concurrently
    race_or_error e = e

    abbrev pub conclude_confirmation :
        Confirm
        → List SalesAllocation
        → SalesDb
        → Bool × SalesDb
        → SalesResult ConfirmationResult × SalesDb
    conclude_confirmation c written before (false, db) = (err confirmed_concurrently, before)
    conclude_confirmation c written before (true, db) = (
      (found (find (is_case c.match_case_id) db.match_cases) assertion_failed >>= λ resolved_case.
          ok (record {
            match_case = resolved_case;
            allocations = written;
            created = true;
            replay = false;
          })),
      db,
    )

    -- The savepoint: all allocations and the case, or nothing.
    abbrev pub commit_or_rollback :
        Confirm
        → List SalesAllocation
        → SalesDb
        → SalesResult SalesDb
        → SalesResult ConfirmationResult × SalesDb
    commit_or_rollback c written before (err e) = (err (race_or_error e), before)
    commit_or_rollback c written before (ok db) =
        conclude_confirmation c written before (resolve_if_pending c.match_case_id c.created_at db)

    unfoldable pub write_confirmation :
        Confirm → MatchCase → SalesDb → SalesResult ConfirmationResult × SalesDb
    write_confirmation c match_case db =
        let written = map (new_allocation c match_case.subject_id) c.allocations in
        commit_or_rollback c written db (add_all c.subject_type written db)

    abbrev pub confirm_pending :
        (SalesDb → SalesDb)
        → Confirm
        → SalesDb
        → MatchCase
        → SalesResult Unit
        → SalesResult ConfirmationResult × SalesDb
    confirm_pending rival c db match_case (err e) = (err e, db)
    confirm_pending rival c db match_case (ok u) = write_confirmation c match_case (rival db)

    abbrev pub confirm_checked :
        (SalesDb → SalesDb)
        → Confirm
        → SalesDb
        → SalesResult (MatchCase × SalesSubject)
        → SalesResult ConfirmationResult × SalesDb
    confirm_checked rival c db (err e) = (err e, db)
    confirm_checked rival c db (ok (match_case, subject)) =
        if is_resolved match_case.status
        then (replay_confirmation c match_case db, db)
        else confirm_pending rival c db match_case (check_pending c match_case subject db)

    -- `rival` is what other sessions commit between the checks and the savepoint.
    unfoldable pub confirm_sales_match :
        List ℕ → (SalesDb → SalesDb) → Confirm → SalesDb → SalesResult ConfirmationResult × SalesDb
    confirm_sales_match sales_contracts rival c db =
        confirm_checked rival c db (check_confirmation sales_contracts c db)
