-- ===== src/Facts/Values.antt =====
-- The comparison of values and of dicts is equality.
use business_execution_ledge.Base.{
  ℕ, ◌≡◌, refl, ap, true, Option, none, some, [], ◌∷◌, arith, ==_iff, ==_self,
}
use business_execution_ledge.Base.Int.{ℤ, ==ℤ_self, eq_of_parts}
use business_execution_ledge.Match.Text.{Text, text_eq}
use business_execution_ledge.Facts.Rows.{Value, text, amount, number}
use business_execution_ledge.Facts.Fields.{value_eq, entry_eq}

text_eq_self : (s : Text) → text_eq s s ≡ true
text_eq_self [] = refl
text_eq_self (a ∷ s) = ground (arith, text_eq_self s)

text_eq_same : (s t : Text) → text_eq s t ≡ true → s ≡ t
text_eq_same [] [] h = refl
text_eq_same [] (b ∷ t) h = cc
text_eq_same (a ∷ s) [] h = cc
text_eq_same (a ∷ s) (b ∷ t) h = ground (arith, text_eq_same s t)

value_eq_self : (v : Value) → value_eq v v ≡ true
value_eq_self (text s) = text_eq_self s
value_eq_self (amount a) = ==ℤ_self a
value_eq_self (number a) = ==_self a

value_eq_same : (v w : Value) → value_eq v w ≡ true → v ≡ w
value_eq_same (text s) (text t) h = ap (λ (x : Text). text x) (text_eq_same s t h)
value_eq_same (text s) (amount b) h = cc
value_eq_same (text s) (number b) h = cc
value_eq_same (amount a) (text t) h = cc
value_eq_same (amount a) (amount b) h = ap (λ (x : ℤ). amount x) (eq_of_parts a b (ground arith))
value_eq_same (amount a) (number b) h = cc
value_eq_same (number a) (text t) h = cc
value_eq_same (number a) (amount b) h = cc
value_eq_same (number a) (number b) h = ap (λ (x : ℕ). number x) ((==_iff a b).0 h)

pub entry_eq_self : (v : Option Value) → entry_eq v v ≡ true
entry_eq_self none = refl
entry_eq_self (some v) = value_eq_self v

pub entry_eq_same : (v w : Option Value) → entry_eq v w ≡ true → v ≡ w
entry_eq_same none none h = refl
entry_eq_same none (some w) h = cc
entry_eq_same (some v) none h = cc
entry_eq_same (some v) (some w) h = ap (λ (x : Value). some x) (value_eq_same v w h)
