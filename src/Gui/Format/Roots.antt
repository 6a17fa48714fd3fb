-- ===== src/Gui/Format/Roots.antt =====
-- The root that the painting of the sun uses.
use paradox_os.Base.{
  Bool-cases, ap, arith, false, inl, inr, leb, leb→le, refl, suc, zero, ℕ, ◌*◌, ◌+◌, ◌<◌, ◌∙◌, ◌≡◌,
  ◌≤◌,
}
use paradox_os.Base.Int.{pos, leb_ℤ}
use paradox_os.Gui.Format.{isqrt_loop, isqrt32}

-- With enough fuel, the loop ends at the root, and more fuel changes nothing.
isqrt_loop_ends :
    (fuel v r : ℕ)
    → r * r ≤ v
    → v < (r + fuel + 1) * (r + fuel + 1)
    → (isqrt_loop fuel v r * isqrt_loop fuel v r ≤ v)
      × (v < (isqrt_loop fuel v r + 1) * (isqrt_loop fuel v r + 1))
      × (isqrt_loop (suc fuel) v r ≡ isqrt_loop fuel v r)
unfolding isqrt_loop
isqrt_loop_ends zero v r low high =
    let same : r + 0 + 1 ≡ r + 1 = omega arith in
    let over : v < (r + 1) * (r + 1) = rw (← same) high in
    let stop : leb ((r + 1) * (r + 1)) v ≡ false = ground (arith, over) in (low, over, rw stop refl)
isqrt_loop_ends (suc fuel) v r low high = elim (Bool-cases (leb ((r + 1) * (r + 1)) v)) [
  | inl e ↦
      let next : r + suc fuel + 1 ≡ r + 1 + fuel + 1 = omega arith in
      let ih = isqrt_loop_ends fuel v (r + 1) (leb→le _ _ e) (rw (← next) high) in rw e ih
  | inr e ↦ rw e (low, ground (arith, e), refl)
]

square_above : (n v : ℕ) → v ≤ n → v < (0 + n + 1) * (0 + n + 1)
square_above n v h = grind arith

isqrt_loop-zero : isqrt_loop 0 0 0 ≡ 0
unfolding isqrt_loop
isqrt_loop-zero = refl

isqrt_loop_stops : (m v : ℕ) → isqrt_loop (m + v) v 0 ≡ isqrt_loop v v 0
isqrt_loop_stops zero v = ap (λ n. isqrt_loop n v 0) (omega arith)
isqrt_loop_stops (suc m) v =
    let one : suc m + v ≡ suc (m + v) = omega arith in
    rw one (
      (isqrt_loop_ends (m + v) v 0 (omega arith) (square_above (m + v) v (omega arith))).2
      ∙ isqrt_loop_stops m v)

-- The loop of the root ends for every number: any number of rounds from the number itself on gives the
-- same, the greatest number whose square is not above.
pub isqrt_loop_lem :
    (m v : ℕ)
    → (isqrt_loop (m + v) v 0 * isqrt_loop (m + v) v 0 ≤ v)
      × (v < (isqrt_loop (m + v) v 0 + 1) * (isqrt_loop (m + v) v 0 + 1))
      × (isqrt_loop (m + v) v 0 ≡ isqrt32 (pos v))
unfolding isqrt32
isqrt_loop_lem m v =
    let ends = isqrt_loop_ends v v 0 (omega arith) (square_above v v (omega arith)) in
    let same = isqrt_loop_stops m v in
    rw same (
      ends.0,
      ends.1,
      elim (Bool-cases (leb_ℤ (pos v) (pos 0))) [
        | inl e ↦ let none_left : v ≡ 0 = ground (arith, e) in rw (e, none_left) (isqrt_loop-zero)
        | inr e ↦ rw e refl
      ],
    )
