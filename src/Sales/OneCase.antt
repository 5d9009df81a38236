-- ===== src/Sales/OneCase.antt =====
-- A sales subject has one match case at most.
use business_execution_ledge.Base.{
  ℕ, ◌≤◌, ◌≡◌, refl, Bool, true, false, Option, none, some, List, [], ◌∷◌, arith, Bool-cases, inl,
  inr,
}
use business_execution_ledge.Base.Lists.{any, count, count-append, any-count}
use business_execution_ledge.Match.Rows.{
  SubjectType, invoice_subject, payment_subject, same_type, MatchCase,
}
use business_execution_ledge.Sales.Rows.{
  SalesSubject, SalesDb, SalesResult, ok, err, is_case_for, add_if_no_case_for_subject,
}
use business_execution_ledge.Sales.Propose.{
  Propose, new_sales_case, case_of_subject, check_proposal, after_insert, propose_with,
  propose_sales_match,
}

-- The number of cases of a subject.
abbrev pub cases_of : SubjectType → ℕ → SalesDb → ℕ
cases_of t i db = count (is_case_for t i) db.match_cases

same_type_same : (a b : SubjectType) → same_type a b ≡ true → a ≡ b
same_type_same invoice_subject invoice_subject h = refl
same_type_same invoice_subject payment_subject h = cc
same_type_same payment_subject invoice_subject h = cc
same_type_same payment_subject payment_subject h = refl

add_if_no_case-one :
    (m : MatchCase) (db : SalesDb) (t : SubjectType) (i : ℕ)
    → cases_of t i db ≤ 1
    → cases_of t i (add_if_no_case_for_subject m db).1 ≤ 1
unfolding add_if_no_case_for_subject
add_if_no_case-one m db t i h =
    elim (Bool-cases (any (is_case_for m.subject_type m.subject_id) db.match_cases)) [
      | inl taken ↦ rw taken h
      | inr free ↦
          let none_yet = any-count (is_case_for m.subject_type m.subject_id) db.match_cases free in
          rw (free, count-append (is_case_for t i) db.match_cases (m ∷ []))
            (elim (Bool-cases (is_case_for t i m)) [
              | inl e ↦
                  let same_t : m.subject_type ≡ t =
                    same_type_same m.subject_type t (ground arith) in
                  let same_i : m.subject_id ≡ i = ground arith in
                  rw (e, ← same_t, ← same_i, none_yet) (omega arith)
              | inr e ↦ rw e (omega (arith, h))
            ])
    ]

after_insert-cases :
    (c : Propose) (r : Bool × SalesDb) → (after_insert c r).1.match_cases ≡ r.1.match_cases
after_insert-cases c (false, db) = refl
after_insert-cases c (true, db) = refl

propose_with-one :
    (rival : SalesDb → SalesDb) (c : Propose) (db : SalesDb) (r : SalesResult Unit)
    (existing : Option MatchCase) (t : SubjectType) (i : ℕ)
    → cases_of t i db ≤ 1
    → cases_of t i (rival db) ≤ 1
    → cases_of t i (propose_with rival c db r existing).1 ≤ 1
propose_with-one rival c db (err e) existing t i h w = h
propose_with-one rival c db (ok u) (some m) t i h w = h
propose_with-one rival c db (ok u) none t i h w =
    rw (after_insert-cases c (add_if_no_case_for_subject (new_sales_case c) (rival db)))
      (add_if_no_case-one (new_sales_case c) (rival db) t i w)

-- A proposal leaves one match case at most for every subject `i` of every leg `t`, however it ends,
-- where there was one at most in the store that is read and in the store that other sessions leave
-- for the insert.
pub propose_sales_match-one_case :
    (subjects : ℕ → Option SalesSubject) (sales_contracts : List ℕ) (rival : SalesDb → SalesDb)
    (c : Propose) (db : SalesDb) (t : SubjectType) (i : ℕ)
    → cases_of t i db ≤ 1
    → cases_of t i (rival db) ≤ 1
    → cases_of t i (propose_sales_match subjects sales_contracts rival c db).1 ≤ 1
unfolding propose_sales_match
propose_sales_match-one_case subjects sales_contracts rival c db t i h w =
    propose_with-one rival c db (check_proposal subjects sales_contracts c) (case_of_subject c db) t
      i h w
