-- ===== src/Match/Accounting.antt =====
-- What the summary of `_run_match_pass` counts, and the match cases that it leaves.
use business_execution_ledge.Base.{
  ℕ, suc, ◌+◌, ◌≡◌, refl, sym, ◌∙◌, Bool, true, false, not, List, [], ◌∷◌, ◌++◌, inl, inr, arith,
  ◌==◌, Bool-cases, Option-cases, if◌then◌else◌,
}
use business_execution_ledge.Base.Lists.{length, any, filter}
use business_execution_ledge.Match.Text.{Unicode}
use business_execution_ledge.Match.Rows.{
  Contract, SubjectType, same_type, MatchCase, Db, add_allocation, invoice_subject, payment_subject,
  Allocation,
}
use business_execution_ledge.Match.Subjects.{Subjects, Summary, PassState, seed, seed_all}
use business_execution_ledge.Match.Cohorts.{
  Plan, candidates_of, plan_cohort, plan_cohorts, cohorts_from,
}
use business_execution_ledge.Match.Pass.{
  Choice, no_room, undefined_chronology, chosen, choose, find_canonical, settle, match_among,
  match_subject, match_all, run_match_pass, eligible, start, has_case, record_unmatched,
  record_no_room, record_human_required, record_allocated,
}

-- The subjects that a pass has decided.
abbrev pub decided : Summary → ℕ
decided m = m.auto_confirmed + m.human_confirmation_required + m.unmatched + m.capacity_exceeded

abbrev pub is_case_of : SubjectType → ℕ → MatchCase → Bool
is_case_of t i c = if same_type c.subject_type t then c.subject_id == i else false

pub same_type_self : (t : SubjectType) → same_type t t ≡ true
same_type_self invoice_subject = refl
same_type_self payment_subject = refl

pub length-filter-not :
    {A : Type 0} (p : A → Bool) (xs : List A)
    → length (filter (λ x. not (p x)) xs) + length (filter p xs) ≡ length xs
length-filter-not p [] = refl
length-filter-not p (x ∷ xs) = ground (arith, length-filter-not p xs)

pub add_allocation-match_cases :
    (t : SubjectType) (a : Allocation) (db : Db)
    → (add_allocation t a db).match_cases ≡ db.match_cases
add_allocation-match_cases invoice_subject a db = refl
add_allocation-match_cases payment_subject a db = refl

pub seed_all-db :
    (t : SubjectType) (st : PassState) (cs : List Contract) → (seed_all t st cs).db ≡ st.db
unfolding seed_all seed
seed_all-db t st [] = refl
seed_all-db t st (c ∷ cs) = seed_all-db t (seed t st c) cs

pub seed_all-summary :
    (t : SubjectType) (st : PassState) (cs : List Contract)
    → (seed_all t st cs).summary ≡ st.summary
unfolding seed_all seed
seed_all-summary t st [] = refl
seed_all-summary t st (c ∷ cs) = seed_all-summary t (seed t st c) cs

module _ (u : Unicode) {S Key State : Type 0} (v : Subjects S Key State) (contracts : List Contract)
    (draw : ℕ → ℕ) (now : ℕ) where
  -- A step from `st` to `st'` that decides one subject: one count goes up, one case is added.
  abbrev pub Decides : S → PassState → PassState → Type 0
  Decides s st st' =
      (decided st'.summary ≡ suc (decided st.summary))
      × (st'.summary.eligible_total ≡ st.summary.eligible_total)
      × (st'.summary.already_matched_skipped ≡ st.summary.already_matched_skipped)
      × (c : MatchCase) × (is_case_of v.subject_type (v.get_id s) c ≡ true)
      × (st'.db.match_cases ≡ st.db.match_cases ++ c ∷ [])

  settle-Decides :
      (plan : Plan) (s : S) (first : Contract) (rest : List Contract) (choice : Choice)
      (st : PassState)
      → Decides s st (settle u v contracts draw now plan s first rest choice st)
  unfolding settle record_no_room record_human_required record_allocated
  settle-Decides plan s first rest no_room st =
      (omega arith, refl, refl, _, ground (arith, same_type_self v.subject_type), refl)
  settle-Decides plan s first rest undefined_chronology st =
      (omega arith, refl, refl, _, ground (arith, same_type_self v.subject_type), refl)
  settle-Decides plan s first rest (chosen c) st = (
    omega arith,
    refl,
    refl,
    _,
    ground (arith, same_type_self v.subject_type),
    add_allocation-match_cases v.subject_type _ _,
  )

  choose-db :
      (plan : Plan) (s : S) (st : PassState)
      → (((choose u v contracts draw now plan s st).1).db ≡ st.db)
        × (((choose u v contracts draw now plan s st).1).summary ≡ st.summary)
  unfolding choose
  choose-db plan s st = elim (Option-cases (find_canonical (v.get_id s) plan.canonical)) [
    | inl e ↦ elim (Bool-cases (any (λ i. i == v.get_id s) plan.blocked)) [
      | inl b ↦ ground (arith, e, b)
      | inr b ↦ ground (
        arith,
        e,
        b,
        seed_all-db v.subject_type st (candidates_of u v contracts s),
        seed_all-summary v.subject_type st (candidates_of u v contracts s),
      )
    ]
    | inr (c, e) ↦ ground (arith, e)
  ]

  Decides-from :
      (s : S) (st st' st'' : PassState)
      → (st'.db ≡ st.db) × (st'.summary ≡ st.summary)
      → Decides s st' st''
      → Decides s st st''
  Decides-from s st st' st'' (d, m) (a, b, c, case, h, e) =
      (rw (sym m) a, rw (sym m) b, rw (sym m) c, case, h, rw (sym d) e)

  pub match_among-Decides :
      (plan : Plan) (s : S) (cs : List Contract) (st : PassState)
      → Decides s st (match_among u v contracts draw now plan s cs st)
  unfolding match_among record_unmatched
  match_among-Decides plan s [] st =
      (omega arith, refl, refl, _, ground (arith, same_type_self v.subject_type), refl)
  match_among-Decides plan s (first ∷ rest) st =
      Decides-from s st (choose u v contracts draw now plan s st).1
        (settle u v contracts draw now plan s first rest (choose u v contracts draw now plan s st).0
          (choose u v contracts draw now plan s st).1)
        (choose-db plan s st)
        (settle-Decides plan s first rest (choose u v contracts draw now plan s st).0
          (choose u v contracts draw now plan s st).1)

  match_all-totals :
      (plan : Plan) (ss : List S) (st : PassState)
      → let st' = match_all u v contracts draw now plan ss st in
        (decided st'.summary ≡ decided st.summary + length ss)
        × (st'.summary.eligible_total ≡ st.summary.eligible_total)
        × (st'.summary.already_matched_skipped ≡ st.summary.already_matched_skipped)
  unfolding match_all match_subject
  match_all-totals plan [] st = (omega arith, refl, refl)
  match_all-totals plan (s ∷ ss) st =
      let st' = match_among u v contracts draw now plan s (candidates_of u v contracts s) st in
      let (a, b, c, _, _, _) = match_among-Decides plan s (candidates_of u v contracts s) st in
      let (x, y, z) = match_all-totals plan ss st' in (omega arith, y ∙ b, z ∙ c)

  plan_cohort-db :
      (st : PassState) (g : List S)
      → ((plan_cohort u v contracts st g).1.db ≡ st.db)
        × ((plan_cohort u v contracts st g).1.summary ≡ st.summary)
  unfolding plan_cohort
  plan_cohort-db st [] = (refl, refl)
  plan_cohort-db st (m ∷ []) = (refl, refl)
  plan_cohort-db st (m ∷ m' ∷ ms) = (
    seed_all-db v.subject_type st (candidates_of u v contracts m),
    seed_all-summary v.subject_type st (candidates_of u v contracts m),
  )

  pub plan_cohorts-db :
      (st : PassState) (gs : List (List S))
      → ((plan_cohorts u v contracts st gs).1.db ≡ st.db)
        × ((plan_cohorts u v contracts st gs).1.summary ≡ st.summary)
  unfolding plan_cohorts
  plan_cohorts-db st [] = (refl, refl)
  plan_cohorts-db st (g ∷ gs) =
      let (a, b) = plan_cohort-db st g in
      let (c, d) = plan_cohorts-db (plan_cohort u v contracts st g).1 gs in (c ∙ a, d ∙ b)

  -- The counts of the summary of a pass add up: every eligible subject was confirmed, left for a
  -- human, unmatched, over capacity, or skipped since it had a case.
  pub run_match_pass-totals :
      (ss : List S) (db : Db)
      → let m = (run_match_pass u v contracts draw now ss db).summary in
        m.eligible_total
        ≡ m.auto_confirmed + m.human_confirmation_required + m.unmatched + m.capacity_exceeded
          + m.already_matched_skipped
  unfolding run_match_pass
  run_match_pass-totals ss db =
      let unresolved =
        filter (λ s. not (has_case u v contracts draw now db s))
          (eligible u v contracts draw now ss) in
      let (plan, st) =
        plan_cohorts u v contracts (start u v contracts draw now db ss)
          (cohorts_from u v contracts [] unresolved) in
      let (_, e) =
        plan_cohorts-db (start u v contracts draw now db ss)
          (cohorts_from u v contracts [] unresolved) in
      let (a, b, c) = match_all-totals plan unresolved st in
      let l =
        length-filter-not (has_case u v contracts draw now db)
          (eligible u v contracts draw now ss) in
      ground (arith, a, b, c, l, e)
