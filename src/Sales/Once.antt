-- ===== src/Sales/Once.antt =====
-- A case is confirmed once: what a confirmation has resolved stays as it is.
use business_execution_ledge.Base.{
  ◌==◌, ℕ, ◌≤◌, ◌≡◌, refl, sym, ap, ◌∙◌, Bool, true, false, Option, none, some, List, [], ◌∷◌, map,
  arith, if◌then◌else◌, Bool-cases, inl, inr,
}
use mathlib.Core.Path.{subst}
use business_execution_ledge.Base.Int.{ℤ}
use business_execution_ledge.Base.Lists.{any, count, find, any-count}
use business_execution_ledge.Match.Rows.{
  SubjectType, invoice_subject, payment_subject, same_type, MatchCase,
}
use business_execution_ledge.Sales.Rows.{
  SalesSubject, SalesAllocation, SalesDb, case_not_found, wrong_subject, subject_not_found,
  wrong_direction, SalesResult, ok, err, check, found, bind-ok, found-ok, insert_sales_allocation,
  is_case, is_pending, is_resolved, is_pending_case, resolve_case, resolve_if_pending,
}
use business_execution_ledge.Sales.Confirm.{
  Confirm, ConfirmationResult, new_allocation, check_add, add_sales_allocation, add_all,
  replay_confirmation, check_confirmation, check_pending, conclude_confirmation, commit_or_rollback,
  write_confirmation, confirm_pending, confirm_checked, confirm_sales_match,
  validate_allocation_pairs,
}

abbrev pub is_done : Option MatchCase → Bool
is_done none = false
is_done (some m) = is_resolved m.status

-- The case that a look-up by id finds is resolved.
abbrev pub is_done_in : ℕ → List MatchCase → Bool
is_done_in i cases = is_done (find (is_case i) cases)

abbrev pub has_created : SalesResult ConfirmationResult → Bool
has_created (err e) = false
has_created (ok r) = r.created

no_case :
    (i now : ℕ) (cases : List MatchCase)
    → count (is_case i) cases ≡ 0
    → any (is_pending_case i) cases ≡ false
no_case i now [] h = refl
no_case i now (m ∷ ms) h = ground (arith, no_case i now ms)

some_of_count :
    (p : MatchCase → Bool) (ms : List MatchCase) → (count p ms == 1) ≡ true → any p ms ≡ true
some_of_count p ms h = ground (arith, h, any-count p ms)

resolve_case-done :
    (i now : ℕ) (cases : List MatchCase)
    → any (is_pending_case i) cases ≡ true
    → count (is_case i) cases ≤ 1
    → is_done_in i (map (resolve_case i now) cases) ≡ true
resolve_case-done i now [] p h = cc
resolve_case-done i now (m ∷ ms) p h = elim (Bool-cases (is_case i m)) [
  | inl e ↦
      let rest : any (is_pending_case i) ms ≡ false = no_case i now ms (ground arith) in
      let here : is_pending m.status ≡ true = ground arith in rw (e, here) (rw e refl)
  | inr e ↦ rw (e) (rw e (resolve_case-done i now ms (ground arith) (ground arith)))
]

inserted_cases :
    (t : SubjectType) (a : SalesAllocation) (db : SalesDb)
    → (insert_sales_allocation t a db).match_cases ≡ db.match_cases
inserted_cases invoice_subject a db = refl
inserted_cases payment_subject a db = refl

module _ (survives : ℤ → Bool) (subjects : ℕ → Option SalesSubject) where
  add_all-cases :
      (t : SubjectType) (as' : List SalesAllocation) (db db' : SalesDb)
      → add_all survives subjects t as' db ≡ ok db'
      → db'.match_cases ≡ db.match_cases
  unfolding add_all
  add_all-cases t [] db db' h =
      let same : db ≡ db' = cc in ap (λ (d : SalesDb). d.match_cases) (sym same)
  add_all-cases t (a ∷ as') db db' h =
      let (next, added, h1) = bind-ok (add_sales_allocation survives subjects t a db) _ _ h in
      let (u, checked, h2) = bind-ok (check_add survives subjects t a db) _ _ added in
      let same : insert_sales_allocation t a db ≡ next = cc in
      add_all-cases t as' next db' h1
      ∙ ap (λ (d : SalesDb). d.match_cases) (sym same)
      ∙ inserted_cases t a db

  conclude-created :
      (c : Confirm) (written : List SalesAllocation) (before : SalesDb) (r : Bool × SalesDb)
      → has_created (conclude_confirmation survives subjects c written before r).0 ≡ true
      → (r.0 ≡ true) × ((conclude_confirmation survives subjects c written before r).1 ≡ r.1)
  conclude-created c written before (false, db) h = cc
  conclude-created c written before (true, db) h = (refl, refl)

  commit-done :
      (c : Confirm) (written : List SalesAllocation) (before : SalesDb) (r : SalesResult SalesDb)
      → add_all survives subjects c.subject_type written before ≡ r
      → count (is_case c.match_case_id) before.match_cases ≤ 1
      → has_created (commit_or_rollback survives subjects c written before r).0 ≡ true
      → is_done_in c.match_case_id
          (commit_or_rollback survives subjects c written before r).1.match_cases
        ≡ true
  unfolding resolve_if_pending
  commit-done c written before (err e) q one h = cc
  commit-done c written before (ok db) q one h =
      let (pending, after) =
        conclude-created c written before (resolve_if_pending c.match_case_id c.created_at db) h in
      let cases = add_all-cases c.subject_type written before db q in
      ap (λ (d : SalesDb). is_done_in c.match_case_id d.match_cases) after
      ∙ resolve_case-done c.match_case_id c.created_at db.match_cases
          (some_of_count (is_pending_case c.match_case_id) db.match_cases pending) (rw cases one)

  pending-done :
      (rival : SalesDb → SalesDb) (c : Confirm) (db : SalesDb) (m : MatchCase)
      (r : SalesResult Unit)
      → count (is_case c.match_case_id) (rival db).match_cases ≤ 1
      → has_created (confirm_pending survives subjects rival c db m r).0 ≡ true
      → is_done_in c.match_case_id (confirm_pending survives subjects rival c db m r).1.match_cases
        ≡ true
  unfolding write_confirmation
  pending-done rival c db m (err e) one h = cc
  pending-done rival c db m (ok u) one h =
      commit-done c (map (new_allocation c m.subject_id) c.allocations) (rival db) _ refl one h

  replay-not_created :
      (c : Confirm) (m : MatchCase) (db : SalesDb)
      → has_created (replay_confirmation survives subjects c m db) ≡ false
  replay-not_created c m db = ground arith

  branch-done :
      (rival : SalesDb → SalesDb) (c : Confirm) (db : SalesDb) (m : MatchCase)
      (r : SalesResult Unit) (b : Bool)
      → let decided =
          if b
          then (replay_confirmation survives subjects c m db, db)
          else confirm_pending survives subjects rival c db m r in
        count (is_case c.match_case_id) (rival db).match_cases ≤ 1
        → has_created decided.0 ≡ true
        → is_done_in c.match_case_id decided.1.match_cases ≡ true
  branch-done rival c db m r true one h = let never = replay-not_created c m db in cc
  branch-done rival c db m r false one h = pending-done rival c db m r one h

  checked-done :
      (rival : SalesDb → SalesDb) (c : Confirm) (db : SalesDb)
      (r : SalesResult (MatchCase × SalesSubject))
      → count (is_case c.match_case_id) (rival db).match_cases ≤ 1
      → has_created (confirm_checked survives subjects rival c db r).0 ≡ true
      → is_done_in c.match_case_id (confirm_checked survives subjects rival c db r).1.match_cases
        ≡ true
  checked-done rival c db (err e) one h = cc
  checked-done rival c db (ok (m, s)) one h =
      branch-done rival c db m (check_pending survives subjects c m s db) (is_resolved m.status) one
        h

  check_confirmation-case :
      (sales_contracts : List ℕ) (c : Confirm) (db : SalesDb) (m : MatchCase) (s : SalesSubject)
      → check_confirmation survives subjects sales_contracts c db ≡ ok (m, s)
      → find (is_case c.match_case_id) db.match_cases ≡ some m
  unfolding check_confirmation
  check_confirmation-case sales_contracts c db m s h =
      let o = find (is_case c.match_case_id) db.match_cases in
      let (n, f, h1) = bind-ok (found o case_not_found) _ _ h in
      let (u1, _, h2) =
        bind-ok (check (same_type n.subject_type c.subject_type) wrong_subject) _ _ h1 in
      let (x, _, h3) = bind-ok (found (subjects n.subject_id) subject_not_found) _ _ h2 in
      let (u2, _, h4) = bind-ok (check x.is_sales wrong_direction) _ _ h3 in
      let (u3, _, h5) =
        bind-ok (validate_allocation_pairs survives sales_contracts c.allocations) _ _ h4 in
      let same : n ≡ m = cc in found-ok o case_not_found n f ∙ ap (λ (k : MatchCase). some k) same

  checked-final :
      (sales_contracts : List ℕ) (rival : SalesDb → SalesDb) (c : Confirm) (db : SalesDb)
      (r : SalesResult (MatchCase × SalesSubject))
      → check_confirmation survives subjects sales_contracts c db ≡ r
      → is_done_in c.match_case_id db.match_cases ≡ true
      → (confirm_checked survives subjects rival c db r).1 ≡ db
  checked-final sales_contracts rival c db (err e) q h = refl
  checked-final sales_contracts rival c db (ok (m, s)) q h =
      let done : is_resolved m.status ≡ true =
        subst (λ (o : Option MatchCase). is_done o ≡ true)
          (check_confirmation-case sales_contracts c db m s q) h in
      rw done refl

  -- A confirmation that has written its allocations is final: a later call about the case, with the
  -- same allocations or others, changes nothing, whatever other sessions would commit in it. No two
  -- cases share an id.
  pub confirm_sales_match-once :
      (sales_contracts : List ℕ) (rival rival' : SalesDb → SalesDb) (c d : Confirm) (db : SalesDb)
      → count (is_case c.match_case_id) (rival db).match_cases ≤ 1
      → d.match_case_id ≡ c.match_case_id
      → has_created (confirm_sales_match survives subjects sales_contracts rival c db).0 ≡ true
      → let db' = (confirm_sales_match survives subjects sales_contracts rival c db).1 in
        (confirm_sales_match survives subjects sales_contracts rival' d db').1 ≡ db'
  unfolding confirm_sales_match
  confirm_sales_match-once sales_contracts rival rival' c d db one same h =
      let r = check_confirmation survives subjects sales_contracts c db in
      let db' = (confirm_checked survives subjects rival c db r).1 in
      checked-final sales_contracts rival' d db'
        (check_confirmation survives subjects sales_contracts d db') refl
        (rw same (checked-done rival c db r one h))
