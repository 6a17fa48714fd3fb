-- ===== src/Base/Bits.antt =====
-- Single bits of a byte: `b | 1 << k`, `b & ~(1 << k)` and the test `b & 1 << k`, with their laws
-- checked over all bytes by evaluation.
use Prim.Native.Nat.{ℕ, zero, suc, ◌-◌, ◌^◌, ◌<◌, bit_and, bit_or}
use mathlib.Core.Path.{◌≡◌, refl}
use mathlib.Core.Bool.{Bool, true, false, not, ◌&&◌}
use native.Mathlib.Omega.{arith}
use mathlib.Core.Logic.{inl, inr}
use paradox_os.Base.Tests.{Bool-cases, ltb, ◌==◌, if◌then◌else◌}

-- A test that all numbers below a bound pass.
unfoldable pub all_below : ℕ → (ℕ → Bool) → Bool
all_below zero test = true
all_below (suc bound) test = all_below bound test && test bound

pub all_below_lem :
    (test : ℕ → Bool) {bound n : ℕ} → n < bound → all_below bound test ≡ true → test n ≡ true
unfolding all_below
all_below_lem test {bound = zero} {n} below passed = absurd (omega arith)
all_below_lem test {bound = suc bound} {n} below passed = elim (Bool-cases (n == bound)) [
  | inl top ↦ let same : n ≡ bound = ground arith in rw same (ground (arith, passed))
  | inr lower ↦ all_below_lem test {bound = bound} {n = n} (ground arith) (ground (arith, passed))
]

-- `byte |= 1 << k`
unfoldable pub set_bit : ℕ → ℕ → ℕ
set_bit b k = bit_or b (2 ^ k)

-- `byte &= ~(1 << k)`: the complement is cut to the byte.
unfoldable pub clear_bit : ℕ → ℕ → ℕ
clear_bit b k = bit_and b (255 - 2 ^ k)

-- `byte & (1 << k)` as a condition
unfoldable pub test_bit : ℕ → ℕ → Bool
test_bit b k = not (bit_and b (2 ^ k) == 0)

abbrev bool_eq : Bool → Bool → Bool
bool_eq true b = b
bool_eq false b = not b

bool_eq→eq : (a b : Bool) → bool_eq a b ≡ true → a ≡ b
bool_eq→eq a b h = ground arith

-- What the eight bits of a byte are after a write to one of them.
abbrev bit_laws : ℕ → ℕ → ℕ → Bool
bit_laws b k j =
    bool_eq (test_bit (set_bit b k) j) (if k == j then true else test_bit b j)
    && bool_eq (test_bit (clear_bit b k) j) (if k == j then false else test_bit b j)

abbrev byte_laws : ℕ → ℕ → Bool
byte_laws b k =
    ltb (set_bit b k) 256
    && (ltb (clear_bit b k) 256
        && (if test_bit b k
            then set_bit (clear_bit b k) k == b
            else clear_bit (set_bit b k) k == b))

bit_table : all_below 256 (λ b. all_below 8 (λ k. all_below 8 (λ j. bit_laws b k j))) ≡ true
unfolding all_below set_bit clear_bit test_bit
bit_table = refl

byte_table : all_below 256 (λ b. all_below 8 (λ k. byte_laws b k)) ≡ true
unfolding all_below set_bit clear_bit test_bit
byte_table = refl

module _ (b k : ℕ) (hb : b < 256) (hk : k < 8) where
  byte_at : byte_laws b k ≡ true
  byte_at = all_below_lem _ hk (all_below_lem _ hb byte_table)

  bit_at : (j : ℕ) → j < 8 → bit_laws b k j ≡ true
  bit_at j hj = all_below_lem _ hj (all_below_lem _ hk (all_below_lem _ hb bit_table))

  pub set_bit-lt : set_bit b k < 256
  set_bit-lt = ground (arith, byte_at)

  pub clear_bit-lt : clear_bit b k < 256
  clear_bit-lt = ground (arith, byte_at)

  pub clear_bit-set_bit : test_bit b k ≡ false → clear_bit (set_bit b k) k ≡ b
  clear_bit-set_bit h = ground (arith, byte_at)

  pub test_bit-set_bit :
      (j : ℕ) → j < 8 → test_bit (set_bit b k) j ≡ (if k == j then true else test_bit b j)
  test_bit-set_bit j hj = ground (arith, bit_at j hj)

  pub test_bit-clear_bit :
      (j : ℕ) → j < 8 → test_bit (clear_bit b k) j ≡ (if k == j then false else test_bit b j)
  test_bit-clear_bit j hj = ground (arith, bit_at j hj)
