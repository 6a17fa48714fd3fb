-- ===== src/Base/Int.antt =====
-- `int32_t` values as integers over the native numbers: a sum that leaves the 32 bits is undefined in
-- the program, so the operations are those of the integers.
use Prim.Native.Nat.{ℕ, suc, ◌+◌, ◌-◌, ◌*◌, ◌/◌, ◌≤◌}
use mathlib.Core.Path.{◌≡◌}
use mathlib.Core.Bool.{Bool}
use native.Mathlib.Omega.{arith}
use paradox_os.Base.Tests.{ltb, leb, if◌then◌else◌}

-- `negsuc n` is -(n + 1).
pub data ℤ : Type 0 where
  pos : ℕ → ℤ
  negsuc : ℕ → ℤ

abbrev pub pos_part : ℤ → ℕ
pos_part (pos n) = n
pos_part (negsuc n) = 0

abbrev pub neg_part : ℤ → ℕ
neg_part (pos n) = 0
neg_part (negsuc n) = suc n

abbrev pub sub_ℕ : ℕ → ℕ → ℤ
sub_ℕ a b = if leb b a then pos (a - b) else negsuc (b - a - 1)

infixl 65 ◌+ℤ◌ ◌-ℤ◌
unfoldable pub ◌+ℤ◌ : ℤ → ℤ → ℤ
a +ℤ b = sub_ℕ (pos_part a + pos_part b) (neg_part a + neg_part b)

unfoldable pub ◌-ℤ◌ : ℤ → ℤ → ℤ
a -ℤ b = sub_ℕ (pos_part a + neg_part b) (neg_part a + pos_part b)

infix 50 ◌≤ℤ◌ ◌<ℤ◌
abbrev pub ◌≤ℤ◌ : ℤ → ℤ → Type 0
a ≤ℤ b = pos_part a + neg_part b ≤ pos_part b + neg_part a

abbrev pub ◌<ℤ◌ : ℤ → ℤ → Type 0
a <ℤ b = suc (pos_part a + neg_part b) ≤ pos_part b + neg_part a

abbrev pub ltb_ℤ : ℤ → ℤ → Bool
ltb_ℤ a b = ltb (pos_part a + neg_part b) (pos_part b + neg_part a)

abbrev pub leb_ℤ : ℤ → ℤ → Bool
leb_ℤ a b = leb (pos_part a + neg_part b) (pos_part b + neg_part a)

-- What the operations do to the two parts; with them `omega` needs no case on a sign.
pub +ℤ_parts :
    (a b : ℤ)
    → pos_part (a +ℤ b) + neg_part a + neg_part b ≡ neg_part (a +ℤ b) + pos_part a + pos_part b
unfolding ◌+ℤ◌
+ℤ_parts a b = ground arith

pub -ℤ_parts :
    (a b : ℤ)
    → pos_part (a -ℤ b) + neg_part a + pos_part b ≡ neg_part (a -ℤ b) + pos_part a + neg_part b
unfolding ◌-ℤ◌
-ℤ_parts a b = ground arith

-- One of the two parts is 0.
pub parts_apart : (a : ℤ) → pos_part a * neg_part a ≡ 0
parts_apart (pos n) = omega arith
parts_apart (negsuc n) = omega arith

pub eq_of_parts : (a b : ℤ) → pos_part a + neg_part b ≡ pos_part b + neg_part a → a ≡ b
eq_of_parts a b h = ground arith

pub ruleset int_laws = (arith, +ℤ_parts, -ℤ_parts, eq_of_parts)

-- Products, and quotients that drop the fraction.
infixl 70 ◌*ℤ◌ ◌/ℤ◌
unfoldable pub ◌*ℤ◌ : ℤ → ℤ → ℤ
a *ℤ b =
    sub_ℕ (pos_part a * pos_part b + neg_part a * neg_part b)
      (pos_part a * neg_part b + neg_part a * pos_part b)

unfoldable pub ◌/ℤ◌ : ℤ → ℤ → ℤ
pos a /ℤ pos b = pos (a / b)
pos a /ℤ negsuc b = sub_ℕ 0 (a / suc b)
negsuc a /ℤ pos b = sub_ℕ 0 (suc a / b)
negsuc a /ℤ negsuc b = pos (suc a / suc b)
