-- ===== src/Link/Keeps.antt =====
-- What the three writes of the bridge keep, every command keeps: a rule for proving invariants of
-- the commands from those of the writes.
use business_execution_ledge.Base.{
  ℕ, ◌≡◌, refl, sym, Bool, true, false, Option, none, some, List, [], ◌∷◌, if◌then◌else◌,
}
use mathlib.Core.Path.{subst}
use business_execution_ledge.Link.Rows.{
  Link, Correction, Store, Action, Result, ok, err, Detail, Error, ◌>>=◌,
}
use business_execution_ledge.Link.Repository.{
  add_task, insert_episode_if_no_current, add_correction_if_uncorrected,
}
use business_execution_ledge.Link.Commands.{
  flag_multiple_sales_scopes_if_ambiguous, flag_correction_conflict,
}

pub record Invariant (P : Store → Type 0) : Type 0 where
  pub task : (d : Detail) (now : ℕ) (s : Store) → P s → P (add_task d now s)
  pub insert : (l : Link) (s : Store) → P s → P (insert_episode_if_no_current l s).1
  pub correct : (c : Correction) (s : Store) → P s → P (add_correction_if_uncorrected c s).1

-- What another session commits keeps `P`.
pub record Safe (P : Store → Type 0) (f : Store → Store) : Type 0 where
  pub at : (s : Store) → P s → P (f s)

-- What a command left: a store of which `P` holds, also where it raised.
pub record Left (P : Store → Type 0) {A : Type 0} (r : Result A × Store) : Type 0 where
  pub holds : P r.1

abbrev pub Keeps : (P : Store → Type 0) {A : Type 0} → Action A → Type 0
Keeps P m = (s : Store) → P s → Left P (m s)

module _ (P : Store → Type 0) (inv : Invariant P) where
  pub left : {A : Type 0} (r : Result A) (s : Store) → P s → Left P (r, s)
  left r s h = record { holds = h }

  pub if-keeps : (b : Bool) (s t : Store) → P s → P t → P (if b then s else t)
  if-keeps true s t h k = h
  if-keeps false s t h k = k

  pub flag_multiple-keeps :
      (p now : ℕ) (s : Store) → P s → P (flag_multiple_sales_scopes_if_ambiguous p now s)
  unfolding flag_multiple_sales_scopes_if_ambiguous
  flag_multiple-keeps p now s h = if-keeps _ _ _ h (if-keeps _ _ _ h (inv.task _ now s h))

  pub flag_correction_conflict-keeps :
      (i f now : ℕ) (s : Store) → P s → P (flag_correction_conflict i f now s)
  unfolding flag_correction_conflict
  flag_correction_conflict-keeps i f now s h = if-keeps _ _ _ h (inv.task _ now s h)

  -- A look-up splits a command into the two ends that it may come to.
  pub option-Left :
      {A B : Type 0} (o : Option A) (n : Result B × Store) (f : A → Result B × Store)
      → Left P n
      → ((a : A) → o ≡ some a → Left P (f a))
      → Left P (elim o as (λ _. Result B × Store) [ none ↦ n | some a ↦ f a ])
  option-Left none n f h k = h
  option-Left (some a) n f h k = k a refl

  pub bool-Left :
      {B : Type 0} (b : Bool) (x y : Result B × Store)
      → (b ≡ true → Left P x)
      → (b ≡ false → Left P y)
      → Left P (elim b as (λ _. Result B × Store) [ true ↦ x | false ↦ y ])
  bool-Left true x y h k = h refl
  bool-Left false x y h k = k refl

  pub branch-Left :
      {B : Type 0} (b : Bool) (x y : Result B × Store)
      → Left P x
      → Left P y
      → Left P (if b then x else y)
  branch-Left true x y h k = h
  branch-Left false x y h k = k

  pub list-Left :
      {A B : Type 0} (l : List A) (n : Result B × Store) (f : A → List A → Result B × Store)
      → Left P n
      → ((a : A) (as' : List A) → Left P (f a as'))
      → Left P (elim l as (λ _. Result B × Store) [ [] ↦ n | a ∷ as' ↦ f a as' ])
  list-Left [] n f h k = h
  list-Left (a ∷ l) n f h k = k a l

  pub result-Left :
      {A B : Type 0} (r : Result A) (x : A → Result B × Store) (y : Error → Result B × Store)
      → ((a : A) → Left P (x a))
      → ((e : Error) → Left P (y e))
      → Left P (elim r as (λ _. Result B × Store) [ ok a ↦ x a | err e ↦ y e ])
  result-Left (ok a) x y h k = h a
  result-Left (err e) x y h k = k e

  pub bind-Keeps :
      {A B : Type 0} (m : Action A) (f : A → Action B)
      → Keeps P m
      → ((a : A) → Keeps P (f a))
      → Keeps P (m >>= f)
  bind-Keeps m f km kf s h =
      result-Left (m s).0 _ _ (λ a. kf a (m s).1 (km s h).holds)
        (λ e. left (err e) (m s).1 (km s h).holds)

  -- A check that only reads.
  pub check-Keeps : {A : Type 0} (r : Store → Result A) → Keeps P (λ s. (r s, s))
  check-Keeps r s h = left (r s) s h

  pub if-Keeps :
      {B : Type 0} (b : Bool) (m n : Action B)
      → Keeps P m
      → Keeps P n
      → Keeps P (if b then m else n)
  if-Keeps true m n km kn = km
  if-Keeps false m n km kn = kn

  -- A check before the rest of a command.
  pub checked-Keeps :
      {A B : Type 0} (r : Store → Result A) (f : A → Action B)
      → ((a : A) → Keeps P (f a))
      → Keeps P ((λ s. (r s, s)) >>= f)
  checked-Keeps r f kf = bind-Keeps (λ s. (r s, s)) f (check-Keeps r) kf

  pub required-Keeps :
      {B : Type 0} (m : Action Unit) (k : Action B)
      → ((s : Store) → (m s).1 ≡ s)
      → Keeps P k
      → Keeps P (m >>= λ _. k)
  required-Keeps m k same kk =
      bind-Keeps m (λ _. k) (λ s h. record { holds = subst P (sym (same s)) h }) (λ _. kk)
