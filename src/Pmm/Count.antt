-- ===== src/Pmm/Count.antt =====
-- Counting the pages below a bound that a test accepts.
use paradox_os.Base.{
  Bool, Bool-cases, arith, false, if◌then◌else◌, inl, inr, refl, suc, true, zero, ℕ, ◌+◌, ◌<◌, ◌==◌,
  ◌≡◌, ◌≢◌, ◌≤◌,
}

unfoldable pub count : (ℕ → Bool) → ℕ → ℕ
count f zero = 0
count f (suc n) = (if f n then 1 else 0) + count f n

pub count-le : (f : ℕ → Bool) (n : ℕ) → count f n ≤ n
unfolding count
count-le f zero = omega arith
count-le f (suc n) = ground (arith, count-le f n)

-- Tests that agree below the bound count alike.
pub count_congr : (f g : ℕ → Bool) (n : ℕ) → ((j : ℕ) → j < n → f j ≡ g j) → count f n ≡ count g n
unfolding count
count_congr f g zero h = refl
count_congr f g (suc n) h =
    ground (arith, h n (omega arith), count_congr f g n (λ j p. h j (omega arith)))

-- Switching one value on adds one.
pub count-switch :
    (f g : ℕ → Bool) (n i : ℕ)
    → i < n
    → f i ≡ false
    → g i ≡ true
    → ((j : ℕ) → j < n → i ≢ j → f j ≡ g j)
    → count g n ≡ suc (count f n)
unfolding count
count-switch f g zero i lt off on same = absurd (omega arith)
count-switch f g (suc n) i lt off on same = elim (Bool-cases (i == n)) [
  | inl here ↦ ground (arith, count_congr f g n (λ j p. same j (omega arith) (ground arith)))
  | inr below ↦ ground (
    arith,
    same n (omega arith) (ground arith),
    count-switch f g n i (ground arith) off on (λ j p ne. same j (omega arith) ne),
  )
]

-- A test that accepts all below the bound counts them all.
pub count_all : (f : ℕ → Bool) (n : ℕ) → ((j : ℕ) → j < n → f j ≡ true) → count f n ≡ n
unfolding count
count_all f zero h = refl
count_all f (suc n) h = ground (arith, h n (omega arith), count_all f n (λ j p. h j (omega arith)))

-- One that is accepted makes the count positive.
pub count_pos : (f : ℕ → Bool) (n i : ℕ) → i < n → f i ≡ true → 0 < count f n
unfolding count
count_pos f zero i lt h = absurd (omega arith)
count_pos f (suc n) i lt h = elim (Bool-cases (i == n)) [
  | inl here ↦ ground arith
  | inr below ↦ ground (arith, count_pos f n i (ground arith) h)
]
