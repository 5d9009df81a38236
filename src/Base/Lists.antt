-- ===== src/Base/Lists.antt =====
-- Lists read through Boolean predicates, as comprehensions and queries read them. The library's
-- `filter` and `count` want a decision and count by other numbers.
use Prim.Native.Nat.{ℕ, suc, ◌+◌, ◌≤◌}
use mathlib.Core.Path.{◌≡◌, refl}
use mathlib.Core.Bool.{Bool, true, false, ◌&&◌, ◌||◌}
use mathlib.Core.List.{List, [], ◌∷◌, ◌++◌}
use mathlib.Core.Option.{Option, none, some}
use native.Mathlib.Omega.{arith}
use business_execution_ledge.Base.Tests.{if◌then◌else◌}

module _ {ℓ} {A : Type ℓ} where
  abbrev pub length : List A → ℕ
  length [] = 0
  length (x ∷ xs) = suc (length xs)

  abbrev pub any : (A → Bool) → List A → Bool
  any p [] = false
  any p (x ∷ xs) = p x || any p xs

  abbrev pub all : (A → Bool) → List A → Bool
  all p [] = true
  all p (x ∷ xs) = p x && all p xs

  abbrev pub filter : (A → Bool) → List A → List A
  filter p [] = []
  filter p (x ∷ xs) = if p x then x ∷ filter p xs else filter p xs

  -- The first row that a query returns.
  abbrev pub find : (A → Bool) → List A → Option A
  find p [] = none
  find p (x ∷ xs) = if p x then some x else find p xs

  abbrev pub count : (A → Bool) → List A → ℕ
  count p [] = 0
  count p (x ∷ xs) = (if p x then 1 else 0) + count p xs

module _ {ℓ} {A : Type ℓ} where
  pub length-append : (xs ys : List A) → length (xs ++ ys) ≡ length xs + length ys
  length-append [] ys = omega arith
  length-append (x ∷ xs) ys = omega (arith, length-append xs ys)

  pub count-append : (p : A → Bool) (xs ys : List A) → count p (xs ++ ys) ≡ count p xs + count p ys
  count-append p [] ys = omega arith
  count-append p (x ∷ xs) ys = omega (arith, count-append p xs ys)

  pub any-append : (p : A → Bool) (xs ys : List A) → any p (xs ++ ys) ≡ any p xs || any p ys
  any-append p [] ys = refl
  any-append p (x ∷ xs) ys = ground (arith, any-append p xs ys)

  -- A predicate that passes fewer rows counts fewer.
  pub count_mono :
      (p q : A → Bool) (xs : List A) → ((x : A) → q x ≡ true → p x ≡ true) → count q xs ≤ count p xs
  count_mono p q [] h = omega arith
  count_mono p q (x ∷ xs) h = ground (arith, h x, count_mono p q xs h)

  pub count-find-none : (p : A → Bool) (xs : List A) → find p xs ≡ none → count p xs ≡ 0
  count-find-none p [] h = refl
  count-find-none p (x ∷ xs) h = ground (arith, count-find-none p xs)

  pub find-none_of_count : (p : A → Bool) (xs : List A) → count p xs ≡ 0 → find p xs ≡ none
  find-none_of_count p [] h = refl
  find-none_of_count p (x ∷ xs) h = ground (arith, find-none_of_count p xs)

  pub find-some_passes : (p : A → Bool) (xs : List A) (a : A) → find p xs ≡ some a → p a ≡ true
  find-some_passes p [] a h = cc
  find-some_passes p (x ∷ xs) a h = ground (arith, find-some_passes p xs a)

  pub find-append :
      (p : A → Bool) (xs ys : List A)
      → find p (xs ++ ys) ≡ (if any p xs then find p xs else find p ys)
  find-append p [] ys = refl
  find-append p (x ∷ xs) ys = ground (arith, find-append p xs ys)

  pub any-count : (p : A → Bool) (xs : List A) → any p xs ≡ false → count p xs ≡ 0
  any-count p [] h = refl
  any-count p (x ∷ xs) h = ground (arith, any-count p xs)

  pub find-none_of_any : (p : A → Bool) (xs : List A) → any p xs ≡ false → find p xs ≡ none
  find-none_of_any p [] h = refl
  find-none_of_any p (x ∷ xs) h = ground (arith, find-none_of_any p xs)

  pub any-false_of_find : (p : A → Bool) (xs : List A) → find p xs ≡ none → any p xs ≡ false
  any-false_of_find p [] h = refl
  any-false_of_find p (x ∷ xs) h = ground (arith, any-false_of_find p xs)

  pub any-true_of_find : (p : A → Bool) (xs : List A) (a : A) → find p xs ≡ some a → any p xs ≡ true
  any-true_of_find p [] a h = cc
  any-true_of_find p (x ∷ xs) a h = ground (arith, any-true_of_find p xs a)

  pub all-filter : (p q : A → Bool) (xs : List A) → all p xs ≡ true → all p (filter q xs) ≡ true
  all-filter p q [] h = refl
  all-filter p q (x ∷ xs) h = ground (arith, all-filter p q xs)

  pub all-filter_self : (p : A → Bool) (xs : List A) → all p (filter p xs) ≡ true
  all-filter_self p [] = refl
  all-filter_self p (x ∷ xs) = ground (arith, all-filter_self p xs)

  pub filter-append :
      (p : A → Bool) (xs ys : List A) → filter p (xs ++ ys) ≡ filter p xs ++ filter p ys
  filter-append p [] ys = refl
  filter-append p (x ∷ xs) ys = ground (arith, filter-append p xs ys)

  pub all-append : (p : A → Bool) (xs ys : List A) → all p (xs ++ ys) ≡ all p xs && all p ys
  all-append p [] ys = refl
  all-append p (x ∷ xs) ys = ground (arith, all-append p xs ys)

  pub filter-filter :
      (p q : A → Bool) (xs : List A) → filter p (filter q xs) ≡ filter (λ x. q x && p x) xs
  filter-filter p q [] = refl
  filter-filter p q (x ∷ xs) = ground (arith, filter-filter p q xs)
