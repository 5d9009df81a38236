-- ===== src/Base/Int.antt =====
-- Signed integers over the native numbers, under the library's names. Decimal amounts are integers
-- of a fixed scale, such as hundredths.
use Prim.Native.Nat.{ℕ, suc, ◌+◌, ◌-◌, ◌≤◌}
use mathlib.Core.Path.{◌≡◌}
use mathlib.Core.Bool.{Bool, true}
use native.Mathlib.Omega.{arith}
use business_execution_ledge.Base.Tests.{ltb, leb, ◌==◌, if◌then◌else◌}

-- `negsuc n` is -(n + 1).
pub data ℤ : Type 0 where
  pos : ℕ → ℤ
  negsuc : ℕ → ℤ

abbrev pub pos_part : ℤ → ℕ
pos_part (pos n) = n
pos_part (negsuc n) = 0

abbrev pub neg_part : ℤ → ℕ
neg_part (pos n) = 0
neg_part (negsuc n) = suc n

abbrev pub sub_ℕ : ℕ → ℕ → ℤ
sub_ℕ a b = if leb b a then pos (a - b) else negsuc (b - a - 1)

infixl 65 ◌+ℤ◌ ◌-ℤ◌
infix 50 ◌≤ℤ◌ ◌<ℤ◌ ◌==ℤ◌
unfoldable pub ◌+ℤ◌ : ℤ → ℤ → ℤ
a +ℤ b = sub_ℕ (pos_part a + pos_part b) (neg_part a + neg_part b)

unfoldable pub ◌-ℤ◌ : ℤ → ℤ → ℤ
a -ℤ b = sub_ℕ (pos_part a + neg_part b) (neg_part a + pos_part b)

abbrev pub ◌≤ℤ◌ : ℤ → ℤ → Type 0
a ≤ℤ b = pos_part a + neg_part b ≤ pos_part b + neg_part a

abbrev pub ◌<ℤ◌ : ℤ → ℤ → Type 0
a <ℤ b = suc (pos_part a + neg_part b) ≤ pos_part b + neg_part a

abbrev pub ltb_ℤ : ℤ → ℤ → Bool
ltb_ℤ a b = ltb (pos_part a + neg_part b) (pos_part b + neg_part a)

abbrev pub leb_ℤ : ℤ → ℤ → Bool
leb_ℤ a b = leb (pos_part a + neg_part b) (pos_part b + neg_part a)

abbrev pub ◌==ℤ◌ : ℤ → ℤ → Bool
a ==ℤ b = pos_part a + neg_part b == pos_part b + neg_part a

-- With these the operations can stay shut.
pub +ℤ_parts :
    (a b : ℤ)
    → pos_part (a +ℤ b) + neg_part a + neg_part b ≡ neg_part (a +ℤ b) + pos_part a + pos_part b
unfolding ◌+ℤ◌
+ℤ_parts a b = ground arith

pub -ℤ_parts :
    (a b : ℤ)
    → pos_part (a -ℤ b) + neg_part a + pos_part b ≡ neg_part (a -ℤ b) + pos_part a + neg_part b
unfolding ◌-ℤ◌
-ℤ_parts a b = ground arith

pub eq_of_parts : (a b : ℤ) → pos_part a + neg_part b ≡ pos_part b + neg_part a → a ≡ b
eq_of_parts a b h = ground arith

pub ruleset int_laws = (arith, +ℤ_parts, -ℤ_parts, eq_of_parts)

pub +ℤ_comm : (a b : ℤ) → a +ℤ b ≡ b +ℤ a
+ℤ_comm a b = grind int_laws

pub +ℤ_assoc : (a b c : ℤ) → (a +ℤ b) +ℤ c ≡ a +ℤ (b +ℤ c)
+ℤ_assoc a b c = grind int_laws

pub -ℤ-+ℤ : (a b c : ℤ) → a -ℤ (b +ℤ c) ≡ (a -ℤ b) -ℤ c
-ℤ-+ℤ a b c = grind int_laws

pub +ℤ-≤ℤ_of_room : (a b c : ℤ) → leb_ℤ c (a -ℤ b) ≡ true → b +ℤ c ≤ℤ a
+ℤ-≤ℤ_of_room a b c h = ground (arith, h, -ℤ_parts a b, +ℤ_parts b c)

pub -ℤ_self : (a : ℤ) → a -ℤ a ≡ pos 0
-ℤ_self a = ground (arith, -ℤ_parts a a, eq_of_parts (a -ℤ a) (pos 0))

pub ==ℤ_self : (a : ℤ) → (a ==ℤ a) ≡ true
==ℤ_self a = ground arith

pub -ℤ_positive : (a b : ℤ) → b <ℤ a → pos 0 <ℤ a -ℤ b
-ℤ_positive a b h = ground (arith, h, -ℤ_parts a b)

pub +ℤ_positive : (a b : ℤ) → pos 0 ≤ℤ a → pos 0 <ℤ b → pos 0 <ℤ a +ℤ b
+ℤ_positive a b h k = ground (arith, h, k, +ℤ_parts a b)
