-- ===== src/Sales/Bounded.antt =====
-- No invoice and no receipt is allocated beyond its amount.
use business_execution_ledge.Base.{
  ℕ, ◌≡◌, refl, sym, ap, ◌∙◌, Bool, true, false, ◌&&◌, Option, some, List, [], ◌∷◌, ◌++◌, map,
  arith, ◌==◌, if◌then◌else◌, Bool-cases, inl, inr,
}
use mathlib.Core.Path.{subst}
use business_execution_ledge.Base.Int.{ℤ, pos, ◌+ℤ◌, ◌≤ℤ◌, leb_ℤ, +ℤ_comm, +ℤ_assoc}
use business_execution_ledge.Base.Lists.{find}
use business_execution_ledge.Match.Rows.{
  SubjectType, invoice_subject, payment_subject, same_type, MatchCase,
}
use business_execution_ledge.Sales.Rows.{
  SalesSubject, SalesAllocation, SalesDb, subject_not_found, wrong_direction, case_not_found,
  wrong_subject, case_not_pending, bad_amount, over_capacity, SalesResult, ok, err, check, found,
  bind-ok, check-ok, found-ok, sales_allocations, insert_sales_allocation, sum_for_subject, is_case,
  is_pending, is_resolved, resolve_if_pending,
}
use business_execution_ledge.Sales.Confirm.{
  Confirm, new_allocation, validate_storable_amount, check_add, add_sales_allocation, add_all,
  check_confirmation, check_pending, conclude_confirmation, commit_or_rollback, write_confirmation,
  confirm_pending, confirm_checked, confirm_sales_match,
}

sum_for_subject-snoc :
    (i : ℕ) (as' : List SalesAllocation) (a : SalesAllocation)
    → sum_for_subject i (as' ++ a ∷ [])
      ≡ (if a.subject_id == i then sum_for_subject i as' +ℤ a.amount else sum_for_subject i as')
unfolding sum_for_subject
sum_for_subject-snoc i [] a = elim (Bool-cases (a.subject_id == i)) [
  | inl e ↦ rw e (+ℤ_comm a.amount (pos 0))
  | inr e ↦ rw e refl
]
sum_for_subject-snoc i (x ∷ xs) a = elim (Bool-cases (a.subject_id == i)) [
  | inl e ↦
      let ih : sum_for_subject i (xs ++ a ∷ []) ≡ sum_for_subject i xs +ℤ a.amount =
        sum_for_subject-snoc i xs a ∙ rw e refl in
      elim (Bool-cases (x.subject_id == i)) [
        | inl f ↦ rw (e, f, ih) (sym (+ℤ_assoc x.amount (sum_for_subject i xs) a.amount))
        | inr f ↦ rw (e, f) ih
      ]
  | inr e ↦
      let ih : sum_for_subject i (xs ++ a ∷ []) ≡ sum_for_subject i xs =
        sum_for_subject-snoc i xs a ∙ rw e refl in
      elim (Bool-cases (x.subject_id == i)) [ inl f ↦ rw (e, f, ih) refl | inr f ↦ rw (e, f) ih ]
]

inserted :
    (t : SubjectType) (a : SalesAllocation) (db : SalesDb)
    → sales_allocations t (insert_sales_allocation t a db) ≡ sales_allocations t db ++ a ∷ []
inserted invoice_subject a db = refl
inserted payment_subject a db = refl

-- The sum of a subject's allocations is within its amount.
abbrev pub Within : SubjectType → ℕ → SalesSubject → SalesDb → Type 0
Within t i x db = sum_for_subject i (sales_allocations t db) ≤ℤ x.amount

module _ (survives : ℤ → Bool) (subjects : ℕ → Option SalesSubject) where
  -- What the conditional INSERT has checked.
  check_add-room :
      (t : SubjectType) (a : SalesAllocation) (db : SalesDb) (x : SalesSubject)
      → check_add survives subjects t a db ≡ ok tt
      → subjects a.subject_id ≡ some x
      → leb_ℤ (sum_for_subject a.subject_id (sales_allocations t db) +ℤ a.amount) x.amount ≡ true
  unfolding check_add
  check_add-room t a db x h e =
      let (y, f, h1) = bind-ok (found (subjects a.subject_id) subject_not_found) _ _ h in
      let same : some y ≡ some x =
        sym (found-ok (subjects a.subject_id) subject_not_found y f) ∙ e in
      let same_amount : y.amount ≡ x.amount = cc in
      let (u2, _, h2) = bind-ok (check y.is_sales wrong_direction) _ _ h1 in
      let (m, _, h3) =
        bind-ok (found (find (is_case a.match_case_id) db.match_cases) case_not_found) _ _ h2 in
      let (u4, _, h4) =
        bind-ok (check (same_type m.subject_type t && m.subject_id == a.subject_id) wrong_subject) _
          _ h3 in
      let (u5, _, h5) = bind-ok (check (is_pending m.status) case_not_pending) _ _ h4 in
      let (u6, _, h6) =
        bind-ok (check (validate_storable_amount survives a.amount) bad_amount) _ _ h5 in
      rw (← same_amount) (
        check-ok
          (leb_ℤ (sum_for_subject a.subject_id (sales_allocations t db) +ℤ a.amount) y.amount)
          over_capacity tt h6)

  insert-Within :
      (t : SubjectType) (a : SalesAllocation) (i : ℕ) (x : SalesSubject) (db : SalesDb)
      → check_add survives subjects t a db ≡ ok tt
      → subjects i ≡ some x
      → Within t i x db
      → Within t i x (insert_sales_allocation t a db)
  insert-Within t a i x db h e w = elim (Bool-cases (a.subject_id == i)) [
    | inl s ↦
        let same : a.subject_id ≡ i = ground arith in
        let room = check_add-room t a db x h (ap subjects same ∙ e) in
        rw (inserted t a db, sum_for_subject-snoc i (sales_allocations t db) a, s)
          (ground (arith, room, same))
    | inr s ↦ rw (inserted t a db, sum_for_subject-snoc i (sales_allocations t db) a, s) w
  ]

  add_all-Within :
      (t : SubjectType) (as' : List SalesAllocation) (i : ℕ) (x : SalesSubject) (db db' : SalesDb)
      → add_all survives subjects t as' db ≡ ok db'
      → subjects i ≡ some x
      → Within t i x db
      → Within t i x db'
  unfolding add_all
  add_all-Within t [] i x db db' h e w = let same : db ≡ db' = cc in subst (Within t i x) same w
  add_all-Within t (a ∷ as') i x db db' h e w =
      let (next, added, h1) = bind-ok (add_sales_allocation survives subjects t a db) _ _ h in
      let (u, checked, h2) = bind-ok (check_add survives subjects t a db) _ _ added in
      let same : insert_sales_allocation t a db ≡ next = cc in
      add_all-Within t as' i x next db' h1 e
        (subst (Within t i x) same (insert-Within t a i x db checked e w))

  same_allocations :
      (t : SubjectType) (i now : ℕ) (db : SalesDb)
      → sales_allocations t (resolve_if_pending i now db).1 ≡ sales_allocations t db
  unfolding resolve_if_pending
  same_allocations invoice_subject i now db = refl
  same_allocations payment_subject i now db = refl

  conclude-Within :
      (c : Confirm) (written : List SalesAllocation) (i : ℕ) (x : SalesSubject) (before : SalesDb)
      (r : Bool × SalesDb)
      → Within c.subject_type i x before
      → Within c.subject_type i x r.1
      → Within c.subject_type i x (conclude_confirmation survives subjects c written before r).1
  conclude-Within c written i x before (false, db) h w = h
  conclude-Within c written i x before (true, db) h w = w

  commit-Within :
      (c : Confirm) (written : List SalesAllocation) (i : ℕ) (x : SalesSubject) (before : SalesDb)
      (r : SalesResult SalesDb)
      → add_all survives subjects c.subject_type written before ≡ r
      → subjects i ≡ some x
      → Within c.subject_type i x before
      → Within c.subject_type i x (commit_or_rollback survives subjects c written before r).1
  commit-Within c written i x before (err e') q e h = h
  commit-Within c written i x before (ok db) q e h =
      conclude-Within c written i x before (resolve_if_pending c.match_case_id c.created_at db) h (
        rw (same_allocations c.subject_type c.match_case_id c.created_at db)
          (add_all-Within c.subject_type written i x before db q e h))

  pending-Within :
      (rival : SalesDb → SalesDb) (c : Confirm) (db : SalesDb) (m : MatchCase) (i : ℕ)
      (x : SalesSubject) (r : SalesResult Unit)
      → subjects i ≡ some x
      → Within c.subject_type i x db
      → Within c.subject_type i x (rival db)
      → Within c.subject_type i x (confirm_pending survives subjects rival c db m r).1
  unfolding write_confirmation
  pending-Within rival c db m i x (err e') e h w = h
  pending-Within rival c db m i x (ok u) e h w =
      commit-Within c (map (new_allocation c m.subject_id) c.allocations) i x (rival db) _ refl e w

  checked-Within :
      (rival : SalesDb → SalesDb) (c : Confirm) (db : SalesDb) (i : ℕ) (x : SalesSubject)
      (r : SalesResult (MatchCase × SalesSubject))
      → subjects i ≡ some x
      → Within c.subject_type i x db
      → Within c.subject_type i x (rival db)
      → Within c.subject_type i x (confirm_checked survives subjects rival c db r).1
  checked-Within rival c db i x (err e') e h w = h
  checked-Within rival c db i x (ok (m, s)) e h w = elim (Bool-cases (is_resolved m.status)) [
    | inl f ↦ rw f h
    | inr f ↦
        rw f (pending-Within rival c db m i x (check_pending survives subjects c m s db) e h w)
  ]

  -- A confirmation leaves every invoice or receipt of its leg allocated within its amount, however it
  -- ends, where it was within it in the store that is read and in the store that other sessions leave
  -- for the writes.
  pub confirm_sales_match-bounded :
      (sales_contracts : List ℕ) (rival : SalesDb → SalesDb) (c : Confirm) (db : SalesDb) (i : ℕ)
      (x : SalesSubject)
      → subjects i ≡ some x
      → Within c.subject_type i x db
      → Within c.subject_type i x (rival db)
      → Within c.subject_type i x
          (confirm_sales_match survives subjects sales_contracts rival c db).1
  unfolding confirm_sales_match
  confirm_sales_match-bounded sales_contracts rival c db i x e h w =
      checked-Within rival c db i x (check_confirmation survives subjects sales_contracts c db) e h
        w
