-- ===== src/Base/Loops.antt =====
-- Counted loops and their invariant rule.
use Prim.Native.Nat.{ℕ, zero, suc, ◌+◌, ◌<◌, ◌≤◌}
use mathlib.Core.Path.{◌≡◌, refl}
use native.Mathlib.Omega.{arith}

module _ {ℓ} {State : Type ℓ} where
  -- for (k = from; k < from + rounds; k++) s = step k s: recursion on the rounds left.
  unfoldable pub for_range : ℕ → ℕ → (ℕ → State → State) → State → State
  for_range zero from step state = state
  for_range (suc rounds) from step state = for_range rounds (from + 1) step (step from state)

  -- What every round hands on from its counter to the next holds behind the last round.
  pub for_range_inv {κ} :
      (Inv : ℕ → State → Type κ) (step : ℕ → State → State) (rounds from to : ℕ) (state : State)
      → from + rounds ≡ to
      → ((at : ℕ) (t : State) → from ≤ at → at < to → Inv at t → Inv (at + 1) (step at t))
      → Inv from state
      → Inv to (for_range rounds from step state)
  unfolding for_range
  for_range_inv Inv step zero from to state ends each now =
      let same : from ≡ to = omega arith in rw (← same) now
  for_range_inv Inv step (suc rounds) from to state ends each now =
      let later = each from state (omega arith) (omega arith) now in
      for_range_inv Inv step rounds (from + 1) to (step from state) (omega arith)
        (λ at t low high inv. each at t (omega arith) high inv) later

  pub for_range-zero :
      (from : ℕ) (step : ℕ → State → State) (state : State) → for_range 0 from step state ≡ state
  unfolding for_range
  for_range-zero from step state = refl
