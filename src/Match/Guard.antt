-- ===== src/Match/Guard.antt =====
-- The capacity guard over a whole `_run_match_pass`: no allocation that follows from chronology or
-- from a single candidate takes a contract over its gross amount.
use business_execution_ledge.Base.{
  ℕ, ◌≡◌, ◌⊎◌, refl, sym, ap, ◌∙◌, inl, inr, Bool, true, not, none, some, List, [], ◌∷◌, arith,
  ◌==◌, Bool-cases,
}
use business_execution_ledge.Base.Lists.{any, all, filter, all-filter, all-filter_self}
use business_execution_ledge.Base.Int.{ℤ, leb_ℤ}
use business_execution_ledge.Match.Text.{Unicode}
use business_execution_ledge.Match.Rows.{Contract, Db}
use business_execution_ledge.Match.Subjects.{Subjects, PassState, lookup, remaining, seed_all}
use business_execution_ledge.Match.Cohorts.{
  Plan, candidates_of, plan_cohort, plan_cohorts, cohorts_from,
}
use business_execution_ledge.Match.Pass.{
  Choice, no_room, undefined_chronology, chosen, choose_viable, choose, find_canonical, settle,
  method_of, match_among, match_subject, match_all, run_match_pass, eligible, start, has_case,
  record_unmatched, record_no_room, record_human_required,
}
use business_execution_ledge.Match.Accounting.{seed_all-db}
use business_execution_ledge.Match.Capacity.{
  Sound, Fits, is_priced, choose_viable-passes, seed_all-Cached, candidates_of-priced,
  record_allocated-Sound, sum_confirmed-same,
}

none_not_some : {A B : Type 0} {a : A} → none ≡ some a → B
none_not_some e = cc

absurd_choice : {A : Type 0} (c : Contract) → undefined_chronology ≡ chosen c → A
absurd_choice c e = cc

module _ (u : Unicode) {S Key State : Type 0} (v : Subjects S Key State) (contracts : List Contract)
    (draw : ℕ → ℕ) (now : ℕ) where
  -- Soundness reads the allocations and the cache.
  Sound-from :
      (gross_of : ℕ → ℤ) (st st' : PassState)
      → st'.remaining_capacity ≡ st.remaining_capacity
      → st'.db.invoice_allocations ≡ st.db.invoice_allocations
      → st'.db.payment_allocations ≡ st.db.payment_allocations
      → Sound u v contracts draw now gross_of st
      → Sound u v contracts draw now gross_of st'
  Sound-from gross_of st st' m a b (cached, fits) = (
    λ i r e.
        rw (sum_confirmed-same v.subject_type st.db st'.db i a b)
          (cached i r (ap (lookup i) (sym m) ∙ e)),
    λ i. rw (sum_confirmed-same v.subject_type st.db st'.db i a b) (fits i),
  )

  seed_all-Sound :
      (gross_of : ℕ → ℤ) (st : PassState) (cs : List Contract)
      → Sound u v contracts draw now gross_of st
      → all (is_priced gross_of) cs ≡ true
      → Sound u v contracts draw now gross_of (seed_all v.subject_type st cs)
  seed_all-Sound gross_of st cs (cached, fits) priced = (
    seed_all-Cached v.subject_type gross_of st cs cached priced,
    λ i. rw (seed_all-db v.subject_type st cs) (fits i),
  )

  -- A decision, with the state that it leaves, whose contract has room.
  abbrev Guarded : (ℕ → ℤ) → S → Choice × PassState → Type 0
  Guarded gross_of s x =
      Sound u v contracts draw now gross_of x.1
      × ((c : Contract)
          → x.0 ≡ chosen c
          → (is_priced gross_of c ≡ true)
            × (leb_ℤ (v.get_amount s) (remaining v.subject_type x.1 c) ≡ true))

  abbrev viable : S → PassState → List Contract
  viable s st =
      filter (λ c. leb_ℤ (v.get_amount s) (remaining v.subject_type st c))
        (candidates_of u v contracts s)

  choose-cases :
      (plan : Plan) (s : S) (st : PassState)
      → find_canonical (v.get_id s) plan.canonical ≡ none
      → let st' = seed_all v.subject_type st (candidates_of u v contracts s) in
        (choose u v contracts draw now plan s st ≡ (undefined_chronology, st))
        ⊎ (choose u v contracts draw now plan s st
            ≡ (choose_viable (v.get_date s) (viable s st'), st'))
  unfolding choose
  choose-cases plan s st e = elim (Bool-cases (any (λ i. i == v.get_id s) plan.blocked)) [
    | inl b ↦ inl (ground (arith, e, b))
    | inr b ↦ inr (ground (arith, e, b))
  ]

  choose-Guarded :
      (gross_of : ℕ → ℤ) (plan : Plan) (s : S) (st : PassState)
      → all (is_priced gross_of) contracts ≡ true
      → find_canonical (v.get_id s) plan.canonical ≡ none
      → Sound u v contracts draw now gross_of st
      → Guarded gross_of s (choose u v contracts draw now plan s st)
  choose-Guarded gross_of plan s st priced e sound =
      let cs = candidates_of u v contracts s in
      let p = candidates_of-priced u v contracts draw now gross_of s priced in
      let st' = seed_all v.subject_type st cs in
      let has_room : Contract → Bool =
        λ c. leb_ℤ (v.get_amount s) (remaining v.subject_type st' c) in
      elim (choose-cases plan s st e) [
        | inl h ↦ rw h (sound, λ c k. absurd_choice c k)
        | inr h ↦ rw h (
          seed_all-Sound gross_of st cs sound p,
          λ c k. (
            choose_viable-passes (is_priced gross_of) (v.get_date s) (viable s st') c
                (all-filter (is_priced gross_of) has_room cs p) k,
            choose_viable-passes has_room (v.get_date s) (viable s st') c
                (all-filter_self has_room cs) k,
          ),
        )
      ]

  settle-Sound :
      (gross_of : ℕ → ℤ) (plan : Plan) (s : S) (first : Contract) (rest : List Contract)
      (x : Choice × PassState)
      → Guarded gross_of s x
      → Sound u v contracts draw now gross_of
          (settle u v contracts draw now plan s first rest x.0 x.1)
  unfolding settle record_no_room record_human_required
  settle-Sound gross_of plan s first rest (no_room, st) (sound, g) =
      Sound-from gross_of st (record_no_room u v contracts draw now s first (first ∷ rest) st) refl
        refl refl sound
  settle-Sound gross_of plan s first rest (undefined_chronology, st) (sound, g) =
      Sound-from gross_of st (record_human_required u v contracts draw now s (first ∷ rest) st) refl
        refl refl sound
  settle-Sound gross_of plan s first rest (chosen c, st) (sound, g) =
      let (priced, room) = g c refl in
      record_allocated-Sound u v contracts draw now gross_of s c
        (method_of u v contracts draw now plan s (first ∷ rest)) st sound priced room

  match_among-Sound :
      (gross_of : ℕ → ℤ) (plan : Plan) (s : S) (cs : List Contract) (st : PassState)
      → all (is_priced gross_of) contracts ≡ true
      → find_canonical (v.get_id s) plan.canonical ≡ none
      → Sound u v contracts draw now gross_of st
      → Sound u v contracts draw now gross_of (match_among u v contracts draw now plan s cs st)
  unfolding match_among record_unmatched
  match_among-Sound gross_of plan s [] st priced e sound =
      Sound-from gross_of st (record_unmatched u v contracts draw now s st) refl refl refl sound
  match_among-Sound gross_of plan s (first ∷ rest) st priced e sound =
      settle-Sound gross_of plan s first rest (choose u v contracts draw now plan s st)
        (choose-Guarded gross_of plan s st priced e sound)

  match_all-Sound :
      (gross_of : ℕ → ℤ) (plan : Plan) (ss : List S) (st : PassState)
      → all (is_priced gross_of) contracts ≡ true
      → plan.canonical ≡ []
      → Sound u v contracts draw now gross_of st
      → Sound u v contracts draw now gross_of (match_all u v contracts draw now plan ss st)
  unfolding match_all match_subject
  match_all-Sound gross_of plan [] st priced e sound = sound
  match_all-Sound gross_of plan (s ∷ ss) st priced e sound =
      match_all-Sound gross_of plan ss
        (match_among u v contracts draw now plan s (candidates_of u v contracts s) st) priced e
        (match_among-Sound gross_of plan s (candidates_of u v contracts s) st priced (rw e refl)
          sound)

  plan_cohort-Sound :
      (gross_of : ℕ → ℤ) (st : PassState) (g : List S)
      → all (is_priced gross_of) contracts ≡ true
      → Sound u v contracts draw now gross_of st
      → Sound u v contracts draw now gross_of (plan_cohort u v contracts st g).1
  unfolding plan_cohort
  plan_cohort-Sound gross_of st [] priced sound = sound
  plan_cohort-Sound gross_of st (m ∷ []) priced sound = sound
  plan_cohort-Sound gross_of st (m ∷ m' ∷ ms) priced sound =
      seed_all-Sound gross_of st (candidates_of u v contracts m) sound
        (candidates_of-priced u v contracts draw now gross_of m priced)

  plan_cohorts-Sound :
      (gross_of : ℕ → ℤ) (st : PassState) (gs : List (List S))
      → all (is_priced gross_of) contracts ≡ true
      → Sound u v contracts draw now gross_of st
      → Sound u v contracts draw now gross_of (plan_cohorts u v contracts st gs).1
  unfolding plan_cohorts
  plan_cohorts-Sound gross_of st [] priced sound = sound
  plan_cohorts-Sound gross_of st (g ∷ gs) priced sound =
      plan_cohorts-Sound gross_of (plan_cohort u v contracts st g).1 gs priced
        (plan_cohort-Sound gross_of st g priced sound)

  -- The subjects that a pass looks at, and the plan that it makes of them.
  abbrev pub unresolved : List S → Db → List S
  unresolved ss db =
      filter (λ s. not (has_case u v contracts draw now db s)) (eligible u v contracts draw now ss)

  abbrev pub plan_of : List S → Db → Plan
  plan_of ss db =
      (plan_cohorts u v contracts (start u v contracts draw now db ss)
        (cohorts_from u v contracts [] (unresolved ss db))).0

  -- A pass takes no contract over its gross amount, when `gross_of` is what the contracts say, no
  -- contract was over before, and no cohort gets canonical contracts.
  pub run_match_pass-Fits :
      (gross_of : ℕ → ℤ) (ss : List S) (db : Db)
      → all (is_priced gross_of) contracts ≡ true
      → (plan_of ss db).canonical ≡ []
      → Fits v.subject_type gross_of db
      → Fits v.subject_type gross_of (run_match_pass u v contracts draw now ss db).db
  unfolding run_match_pass
  run_match_pass-Fits gross_of ss db priced e fits =
      let gs = cohorts_from u v contracts [] (unresolved ss db) in
      let st = start u v contracts draw now db ss in
      (match_all-Sound gross_of (plan_cohorts u v contracts st gs).0 (unresolved ss db)
        (plan_cohorts u v contracts st gs).1 priced e
        (plan_cohorts-Sound gross_of st gs priced (λ i r k. none_not_some k, fits))).1
