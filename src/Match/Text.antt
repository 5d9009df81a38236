-- ===== src/Match/Text.antt =====
-- domain/normalize.py. NFKC and the whitespace class are those of Python's `unicodedata` and `re`.

use business_execution_ledge.Base.{
  ℕ, Bool, true, false, ◌&&◌, ◌||◌, not, Option, none, some, List, [], ◌∷◌, ltb, ◌==◌,
  if◌then◌else◌,
}
use business_execution_ledge.Base.Lists.{filter}

abbrev pub Text : Type 0
Text = List ℕ

pub record Unicode : Type 0 where
  pub nfkc : Text → Text
  pub is_space : ℕ → Bool

abbrev pub text_eq : Text → Text → Bool
text_eq [] [] = true
text_eq (a ∷ s) (b ∷ t) = a == b && text_eq s t
text_eq _ _ = false

-- Python's order of strings, by code points.
abbrev pub text_ltb : Text → Text → Bool
text_ltb s [] = false
text_ltb [] (b ∷ t) = true
text_ltb (a ∷ s) (b ∷ t) = ltb a b || (a == b && text_ltb s t)

abbrev pub is_blank : Text → Bool
is_blank [] = true
is_blank (_ ∷ _) = false

unfoldable pub is_linebreak : ℕ → Bool
is_linebreak c = c == 0x0D || c == 0x0A || c == 0x2028 || c == 0x2029

module _ (u : Unicode) where
  -- `_WHITESPACE_RUN_RE.sub(" ", text)`; `after` says that a run has begun.
  unfoldable pub collapse : Bool → Text → Text
  collapse after [] = []
  collapse after (c ∷ t) =
      let rest = collapse (u.is_space c) t in
      if u.is_space c then (if after then rest else 32 ∷ rest) else c ∷ rest

  unfoldable pub lstrip : Text → Text
  lstrip [] = []
  lstrip (c ∷ t) = if u.is_space c then lstrip t else c ∷ t

  unfoldable pub rstrip : Text → Text
  rstrip [] = []
  rstrip (c ∷ t) = let rest = rstrip t in if u.is_space c && is_blank rest then [] else c ∷ rest

  unfoldable pub tidy : Text → Text
  tidy t = rstrip (lstrip (collapse false (filter (λ c. not (is_linebreak c)) t)))

  unfoldable pub normalize_counterparty : Option Text → Option Text
  normalize_counterparty none = none
  normalize_counterparty (some name) = some (tidy (u.nfkc name))

  unfoldable pub same_counterparty : Option Text → Option Text → Bool
  same_counterparty a b = elim (normalize_counterparty a) [
    | none ↦ false
    | some s ↦ elim (normalize_counterparty b) [ none ↦ false | some t ↦ text_eq s t ]
  ]
