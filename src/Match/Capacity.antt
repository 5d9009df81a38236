-- ===== src/Match/Capacity.antt =====
-- The capacity guard of `_run_match_pass`. The contract table is given by `gross_of`, the gross
-- amount of each contract id.
use business_execution_ledge.Base.{
  ℕ, ◌≡◌, refl, ap, ◌∙◌, inl, inr, Bool, true, Option, some, List, [], ◌∷◌, ◌++◌, arith, ◌==◌,
  ==_iff, Bool-cases, Option-cases, if◌then◌else◌,
}
use business_execution_ledge.Base.Lists.{all, all-filter}
use business_execution_ledge.Base.Int.{
  ℤ, pos, ◌+ℤ◌, ◌-ℤ◌, ◌≤ℤ◌, leb_ℤ, ◌==ℤ◌, eq_of_parts, +ℤ_comm, +ℤ_assoc, -ℤ-+ℤ, +ℤ-≤ℤ_of_room,
}
use business_execution_ledge.Match.Text.{Unicode, normalize_counterparty}
use business_execution_ledge.Match.Rows.{
  Contract, SubjectType, AllocationMatchMethod, invoice_subject, payment_subject, Allocation, Db,
  add_allocation, sum_for, sum_confirmed_for_contract, auto_confirmed, case_auto_confirmed,
}
use business_execution_ledge.Match.Candidates.{
  min_of, contract_ltb, is_candidate, find_candidate_contracts,
}
use business_execution_ledge.Match.Subjects.{
  Subjects, PassState, lookup, update, remaining, seed, seed_all,
}
use business_execution_ledge.Match.Cohorts.{candidates_of}
use business_execution_ledge.Match.Pass.{
  chosen, choose_viable, record_allocated, add_case, add_candidates,
}

min_of-passes :
    (p : Contract → Bool) (c : Contract) (cs : List Contract)
    → p c ≡ true
    → all p cs ≡ true
    → p (min_of contract_ltb c cs) ≡ true
unfolding min_of
min_of-passes p c [] h a = h
min_of-passes p c (d ∷ cs) h a = elim (Bool-cases (contract_ltb d c)) [
  | inl e ↦ rw e (min_of-passes p d cs (ground (arith, a)) (ground (arith, a)))
  | inr e ↦ rw e (min_of-passes p c cs h (ground (arith, a)))
]

-- The contract that is chosen is one of those with room.
pub choose_viable-passes :
    (p : Contract → Bool) (date : Option ℕ) (viable : List Contract) (c : Contract)
    → all p viable ≡ true
    → choose_viable date viable ≡ chosen c
    → p c ≡ true
unfolding choose_viable
choose_viable-passes p date [] c a e = ground (arith, e)
choose_viable-passes p date (x ∷ []) c a e = ground (arith, a, e)
choose_viable-passes p date (x ∷ y ∷ cs) c a e = ground (arith, a, e, min_of-passes p x (y ∷ cs))

sum_for-append :
    (i : ℕ) (xs : List Allocation) (a : Allocation)
    → sum_for i (xs ++ a ∷ [])
      ≡ (if a.contract_id == i then sum_for i xs +ℤ a.amount else sum_for i xs)
unfolding sum_for
sum_for-append i [] a = ground (arith, +ℤ_comm a.amount (pos 0))
sum_for-append i (x ∷ xs) a =
    ground (arith, sum_for-append i xs a, +ℤ_assoc x.amount (sum_for i xs) a.amount)

pub sum_confirmed-add_allocation :
    (t : SubjectType) (db : Db) (a : Allocation) (i : ℕ)
    → sum_confirmed_for_contract t (add_allocation t a db) i ≡ (
        if a.contract_id == i
        then sum_confirmed_for_contract t db i +ℤ a.amount
        else sum_confirmed_for_contract t db i)
sum_confirmed-add_allocation invoice_subject db a i = sum_for-append i db.invoice_allocations a
sum_confirmed-add_allocation payment_subject db a i = sum_for-append i db.payment_allocations a

pub sum_confirmed-same :
    (t : SubjectType) (db db' : Db) (i : ℕ)
    → db'.invoice_allocations ≡ db.invoice_allocations
    → db'.payment_allocations ≡ db.payment_allocations
    → sum_confirmed_for_contract t db' i ≡ sum_confirmed_for_contract t db i
sum_confirmed-same invoice_subject db db' i e e' = ap (sum_for i) e
sum_confirmed-same payment_subject db db' i e e' = ap (sum_for i) e'

lookup-update :
    (j k : ℕ) (r : ℤ) (m : List (ℕ × ℤ))
    → lookup j (update k r m) ≡ (if k == j then some r else lookup j m)
lookup-update j k r [] = refl
lookup-update j k r ((i, w) ∷ m) = ground (arith, lookup-update j k r m)

-- Allocations of no contract exceed its gross amount, and what the pass has cached of a contract's
-- capacity is what the tables say.
abbrev pub Fits : SubjectType → (ℕ → ℤ) → Db → Type 0
Fits t gross_of db = (i : ℕ) → sum_confirmed_for_contract t db i ≤ℤ gross_of i

abbrev pub Cached : SubjectType → (ℕ → ℤ) → PassState → Type 0
Cached t gross_of st =
    (i : ℕ) (r : ℤ)
    → lookup i st.remaining_capacity ≡ some r
    → r ≡ gross_of i -ℤ sum_confirmed_for_contract t st.db i

-- `gross_of` is what the contracts say.
abbrev pub is_priced : (ℕ → ℤ) → Contract → Bool
is_priced gross_of c = c.gross_amount ==ℤ gross_of c.id

remaining-Cached :
    (t : SubjectType) (gross_of : ℕ → ℤ) (st : PassState) (c : Contract)
    → Cached t gross_of st
    → is_priced gross_of c ≡ true
    → remaining t st c ≡ gross_of c.id -ℤ sum_confirmed_for_contract t st.db c.id
unfolding remaining
remaining-Cached t gross_of st c cached priced =
    elim (Option-cases (lookup c.id st.remaining_capacity)) [
      | inl e ↦ ground (arith, e, eq_of_parts c.gross_amount (gross_of c.id), priced)
      | inr (r, e) ↦ ground (arith, e, cached c.id r e)
    ]

seed-Cached :
    (t : SubjectType) (gross_of : ℕ → ℤ) (st : PassState) (c : Contract)
    → Cached t gross_of st
    → is_priced gross_of c ≡ true
    → Cached t gross_of (seed t st c)
unfolding seed
seed-Cached t gross_of st c cached priced i r e = ground (
  arith,
  e,
  lookup-update i c.id (remaining t st c) st.remaining_capacity,
  cached i r,
  remaining-Cached t gross_of st c cached priced,
  ==_iff c.id i,
)

pub seed_all-Cached :
    (t : SubjectType) (gross_of : ℕ → ℤ) (st : PassState) (cs : List Contract)
    → Cached t gross_of st
    → all (is_priced gross_of) cs ≡ true
    → Cached t gross_of (seed_all t st cs)
unfolding seed_all
seed_all-Cached t gross_of st [] cached priced = cached
seed_all-Cached t gross_of st (c ∷ cs) cached priced =
    seed_all-Cached t gross_of (seed t st c) cs
      (seed-Cached t gross_of st c cached (ground (arith, priced))) (ground (arith, priced))

module _ (u : Unicode) {S Key State : Type 0} (v : Subjects S Key State) (contracts : List Contract)
    (draw : ℕ → ℕ) (now : ℕ) where
  -- What the pass keeps.
  abbrev pub Sound : (ℕ → ℤ) → PassState → Type 0
  Sound gross_of st = Cached v.subject_type gross_of st × Fits v.subject_type gross_of st.db

  pub candidates_of-priced :
      (gross_of : ℕ → ℤ) (s : S)
      → all (is_priced gross_of) contracts ≡ true
      → all (is_priced gross_of) (candidates_of u v contracts s) ≡ true
  unfolding candidates_of find_candidate_contracts
  candidates_of-priced gross_of s priced =
      elim (Option-cases (normalize_counterparty u (v.get_counterparty s))) [
        | inl e ↦ ground (arith, e)
        | inr (n, e) ↦ ground (
          arith,
          e,
          all-filter (is_priced gross_of) (is_candidate u n (v.get_amount s)) contracts priced,
        )
      ]

  record_allocated-sum :
      (s : S) (c : Contract) (method : AllocationMatchMethod) (st : PassState) (i : ℕ)
      → sum_confirmed_for_contract v.subject_type
          (record_allocated u v contracts draw now s c method st).db
          i
        ≡ (if c.id == i
            then sum_confirmed_for_contract v.subject_type st.db i +ℤ v.get_amount s
            else sum_confirmed_for_contract v.subject_type st.db i)
  unfolding record_allocated
  record_allocated-sum s c method st i =
      let t = v.subject_type in
      let a : Allocation = record {
        subject_id = v.get_id s;
        contract_id = c.id;
        match_case_id = draw (v.get_id s);
        amount = v.get_amount s;
        match_method = method;
        confirmation_type = auto_confirmed;
        created_at = now;
      } in
      let db =
        add_candidates u v contracts draw now s (c ∷ [])
          (add_case u v contracts draw now s case_auto_confirmed (some now) st.db) in
      sum_confirmed-same t (add_allocation t a db) _ i refl refl
      ∙ sum_confirmed-add_allocation t db a i
      ∙ ap (λ x. if c.id == i then x +ℤ v.get_amount s else x)
          (sum_confirmed-same t st.db db i refl refl)

  pub record_allocated-Sound :
      (gross_of : ℕ → ℤ) (s : S) (c : Contract) (method : AllocationMatchMethod) (st : PassState)
      → Sound gross_of st
      → is_priced gross_of c ≡ true
      → leb_ℤ (v.get_amount s) (remaining v.subject_type st c) ≡ true
      → Sound gross_of (record_allocated u v contracts draw now s c method st)
  record_allocated-Sound gross_of s c method st (cached, fits) priced room =
      let m = remaining-Cached v.subject_type gross_of st c cached priced in
      (
        λ i r e.
            let l =
              lookup-update i c.id (remaining v.subject_type st c -ℤ v.get_amount s)
                st.remaining_capacity in
            let k = record_allocated-sum s c method st i in
            let f : lookup i (
                  update c.id (remaining v.subject_type st c -ℤ v.get_amount s)
                    st.remaining_capacity)
                ≡ some r =
              unfold record_allocated in e in
            let d =
              -ℤ-+ℤ (gross_of i) (sum_confirmed_for_contract v.subject_type st.db i)
                (v.get_amount s) in
            ground (arith, l, k, f, d, m, cached i r, ==_iff c.id i),
        λ i.
            let k = record_allocated-sum s c method st i in
            ground (
              arith,
              k,
              m,
              room,
              fits i,
              ==_iff c.id i,
              +ℤ-≤ℤ_of_room (gross_of i) (sum_confirmed_for_contract v.subject_type st.db i)
                  (v.get_amount s),
            ),
      )
