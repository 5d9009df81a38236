-- ===== src/Match/Earliest.antt =====
-- The chronological choice of `_run_match_pass` among contracts with room.
use business_execution_ledge.Base.{
  ℕ, ◌≡◌, refl, inl, inr, Bool, true, false, not, Option, none, some, List, [], ◌∷◌, arith, present,
  Bool-cases,
}
use business_execution_ledge.Base.Lists.{all}
use business_execution_ledge.Match.Rows.{Contract}
use business_execution_ledge.Match.Candidates.{date_ltb, date_eq, contract_ltb, min_of}
use business_execution_ledge.Match.Pass.{chosen, choose_viable}

-- `c` is dated no later than `d`.
abbrev pub no_later : Contract → Contract → Bool
no_later c d = not (date_ltb d.contract_date c.contract_date)

date_not_after :
    (a b c : Option ℕ) → date_ltb b a ≡ false → date_ltb c b ≡ false → date_ltb c a ≡ false
date_not_after none b none h k = refl
date_not_after none none (some c) h k = ground (arith, h, k)
date_not_after none (some b) (some c) h k = ground (arith, h, k)
date_not_after (some a) b none h k = refl
date_not_after (some a) none (some c) h k = ground (arith, h, k)
date_not_after (some a) (some b) (some c) h k = ground (arith, h, k)

date_asym : (a b : Option ℕ) → date_ltb a b ≡ true → date_ltb b a ≡ false
date_asym none b h = ground (arith, h)
date_asym (some a) none h = refl
date_asym (some a) (some b) h = ground (arith, h)

date_eq-not_before : (a b : Option ℕ) → date_eq a b ≡ true → date_ltb b a ≡ false
date_eq-not_before none b h = ground (arith, h)
date_eq-not_before (some a) none h = refl
date_eq-not_before (some a) (some b) h = ground (arith, h)

no_later_trans :
    (a b c : Contract) → no_later a b ≡ true → no_later b c ≡ true → no_later a c ≡ true
no_later_trans a b c h k =
    ground (arith, h, k, date_not_after a.contract_date b.contract_date c.contract_date)

no_later-of_before : (c d : Contract) → contract_ltb c d ≡ true → no_later c d ≡ true
unfolding contract_ltb
no_later-of_before c d h = ground (
  arith,
  h,
  date_asym c.contract_date d.contract_date,
  date_eq-not_before c.contract_date d.contract_date,
)

no_later-of_not_before : (c d : Contract) → contract_ltb d c ≡ false → no_later c d ≡ true
unfolding contract_ltb
no_later-of_not_before c d h = ground (arith, h)

all-weaken :
    (p q : Contract → Bool) (cs : List Contract)
    → ((c : Contract) → p c ≡ true → q c ≡ true)
    → all p cs ≡ true
    → all q cs ≡ true
all-weaken p q [] h a = refl
all-weaken p q (c ∷ cs) h a = ground (arith, h c, a, all-weaken p q cs h)

date_irrefl : (a : Option ℕ) → date_ltb a a ≡ false
date_irrefl none = refl
date_irrefl (some a) = ground arith

no_later_refl : (c : Contract) → no_later c c ≡ true
no_later_refl c = ground (arith, date_irrefl c.contract_date)

min_of-earliest :
    (c : Contract) (cs : List Contract) → all (no_later (min_of contract_ltb c cs)) (c ∷ cs) ≡ true
unfolding min_of
min_of-earliest c [] = ground (arith, no_later_refl c)
min_of-earliest c (d ∷ cs) = elim (Bool-cases (contract_ltb d c)) [
  | inl e ↦ ground (
    arith,
    e,
    min_of-earliest d cs,
    no_later-of_before d c e,
    no_later_trans (min_of contract_ltb d cs) d c,
  )
  | inr e ↦ ground (
    arith,
    e,
    min_of-earliest c cs,
    no_later-of_not_before c d e,
    no_later_trans (min_of contract_ltb c cs) c d,
  )
]

-- With several contracts, the one chosen is dated no later than any other, and every one of them and
-- the subject are dated.
pub choose_viable-earliest :
    (date : Option ℕ) (first second : Contract) (rest : List Contract) (c : Contract)
    → choose_viable date (first ∷ second ∷ rest) ≡ chosen c
    → (all (no_later c) (first ∷ second ∷ rest) ≡ true)
      × (all (λ (d : Contract). present d.contract_date) (first ∷ second ∷ rest) ≡ true)
      × (present date ≡ true)
unfolding choose_viable
choose_viable-earliest date first second rest c e =
    elim (Bool-cases (all (λ (d : Contract). present d.contract_date) (first ∷ second ∷ rest))) [
      | inl a ↦ ground (arith, e, a, min_of-earliest first (second ∷ rest))
      | inr a ↦ ground (arith, e, a)
    ]
