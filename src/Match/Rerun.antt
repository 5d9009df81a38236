-- ===== src/Match/Rerun.antt =====
-- What a second `_run_match_pass` does: every eligible subject then has a match case.
use business_execution_ledge.Base.{
  ℕ, ◌≡◌, refl, sym, ◌∙◌, Bool, true, not, List, [], ◌∷◌, arith, present,
}
use business_execution_ledge.Base.Lists.{any, all, filter, find, any-append}
use business_execution_ledge.Match.Text.{Unicode}
use business_execution_ledge.Match.Rows.{Contract, MatchCase, Db}
use business_execution_ledge.Match.Subjects.{Subjects, PassState}
use business_execution_ledge.Match.Cohorts.{Plan, candidates_of, plan_cohorts, cohorts_from}
use business_execution_ledge.Match.Pass.{
  match_among, match_subject, match_all, run_match_pass, eligible, start, has_case,
}
use business_execution_ledge.Match.Accounting.{match_among-Decides, plan_cohorts-db, is_case_of}

module _ {A : Type 0} where
  present-find : (p : A → Bool) (xs : List A) → present (find p xs) ≡ any p xs
  present-find p [] = refl
  present-find p (x ∷ xs) = ground (arith, present-find p xs)

  filter-none :
      (p q : A → Bool) (xs : List A)
      → ((x : A) → p x ≡ true → q x ≡ true)
      → all q (filter (λ x. not (p x)) xs) ≡ true
      → filter (λ x. not (q x)) xs ≡ []
  filter-none p q [] h a = refl
  filter-none p q (x ∷ xs) h a = ground (arith, h x, filter-none p q xs h)

module _ (u : Unicode) {S Key State : Type 0} (v : Subjects S Key State) (contracts : List Contract)
    (draw : ℕ → ℕ) (now : ℕ) where
  match_all-case_kept :
      (plan : Plan) (ss : List S) (st : PassState) (p : MatchCase → Bool)
      → any p st.db.match_cases ≡ true
      → any p (match_all u v contracts draw now plan ss st).db.match_cases ≡ true
  unfolding match_all match_subject
  match_all-case_kept plan [] st p h = h
  match_all-case_kept plan (s ∷ ss) st p h =
      let (_, _, _, c, _, e) =
        match_among-Decides u v contracts draw now plan s (candidates_of u v contracts s) st in
      match_all-case_kept plan ss
        (match_among u v contracts draw now plan s (candidates_of u v contracts s) st) p
        (rw e (ground (arith, h, any-append p st.db.match_cases (c ∷ []))))

  match_all-cased :
      (plan : Plan) (ss : List S) (st : PassState)
      → all (has_case u v contracts draw now (match_all u v contracts draw now plan ss st).db) ss
        ≡ true
  unfolding match_all match_subject
  match_all-cased plan [] st = refl
  match_all-cased plan (s ∷ ss) st =
      let st' = match_among u v contracts draw now plan s (candidates_of u v contracts s) st in
      let (_, _, _, c, h, e) =
        match_among-Decides u v contracts draw now plan s (candidates_of u v contracts s) st in
      let p = is_case_of v.subject_type (v.get_id s) in
      let a : any p st'.db.match_cases ≡ true =
        rw e (ground (arith, h, any-append p st.db.match_cases (c ∷ []))) in
      ground (
        arith,
        match_all-cased plan ss st',
        match_all-case_kept plan ss st' p a,
        present-find p (match_all u v contracts draw now plan ss st').db.match_cases,
      )

  -- After a pass every eligible subject that had no match case has one.
  pub run_match_pass-all_cased :
      (ss : List S) (db : Db)
      → all (has_case u v contracts draw now (run_match_pass u v contracts draw now ss db).db) (
          filter
            (λ s. not (has_case u v contracts draw now db s))
            (eligible u v contracts draw now ss))
        ≡ true
  unfolding run_match_pass
  run_match_pass-all_cased ss db =
      match_all-cased
        (plan_cohorts u v contracts (start u v contracts draw now db ss) (
          cohorts_from u v contracts [] (
            filter (λ s. not (has_case u v contracts draw now db s))
              (eligible u v contracts draw now ss)))).0
        (filter (λ s. not (has_case u v contracts draw now db s))
          (eligible u v contracts draw now ss))
        (plan_cohorts u v contracts (start u v contracts draw now db ss) (
          cohorts_from u v contracts [] (
            filter (λ s. not (has_case u v contracts draw now db s))
              (eligible u v contracts draw now ss)))).1

  run_match_pass-case_kept :
      (ss : List S) (db : Db) (p : MatchCase → Bool)
      → any p db.match_cases ≡ true
      → any p (run_match_pass u v contracts draw now ss db).db.match_cases ≡ true
  unfolding run_match_pass
  run_match_pass-case_kept ss db p h =
      let unresolved =
        filter (λ s. not (has_case u v contracts draw now db s))
          (eligible u v contracts draw now ss) in
      let gs = cohorts_from u v contracts [] unresolved in
      let (d, _) = plan_cohorts-db u v contracts draw now (start u v contracts draw now db ss) gs in
      match_all-case_kept (plan_cohorts u v contracts (start u v contracts draw now db ss) gs).0
        unresolved (plan_cohorts u v contracts (start u v contracts draw now db ss) gs).1 p (rw d h)

  run_match_pass-none_left :
      (ss : List S) (db : Db)
      → filter
          (λ s.
            not
              (has_case u v contracts draw now (run_match_pass u v contracts draw now ss db).db s))
          (eligible u v contracts draw now ss)
        ≡ []
  run_match_pass-none_left ss db =
      let db' = (run_match_pass u v contracts draw now ss db).db in
      filter-none (has_case u v contracts draw now db) (has_case u v contracts draw now db')
        (eligible u v contracts draw now ss)
        (λ s h.
          let p = is_case_of v.subject_type (v.get_id s) in
          present-find p db'.match_cases
          ∙ run_match_pass-case_kept ss db p (sym (present-find p db.match_cases) ∙ h))
        (run_match_pass-all_cased ss db)

  run_match_pass-nothing_to_do :
      (ss : List S) (db : Db)
      → filter
          (λ s. not (has_case u v contracts draw now db s))
          (eligible u v contracts draw now ss)
        ≡ []
      → (run_match_pass u v contracts draw now ss db).db ≡ db
  unfolding run_match_pass match_all plan_cohorts cohorts_from
  run_match_pass-nothing_to_do ss db e = rw e refl

-- A second pass over the same subjects and contracts changes no table, whatever ids it draws and
-- whenever it runs.
pub run_match_pass-rerun :
    (u : Unicode) {S Key State : Type 0} (v : Subjects S Key State) (contracts : List Contract)
    (draw draw' : ℕ → ℕ) (now now' : ℕ) (ss : List S) (db : Db)
    → (run_match_pass u v contracts draw' now' ss
        (run_match_pass u v contracts draw now ss db).db).db
      ≡ (run_match_pass u v contracts draw now ss db).db
run_match_pass-rerun u v contracts draw draw' now now' ss db =
    run_match_pass-nothing_to_do u v contracts draw' now' ss
      (run_match_pass u v contracts draw now ss db).db
      (run_match_pass-none_left u v contracts draw now ss db)
