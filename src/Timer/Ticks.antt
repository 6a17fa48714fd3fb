-- ===== src/Timer/Ticks.antt =====
-- Ticks and time slices.
use paradox_os.Base.{
  Bool-cases, [], ap, arith, false, inl, inr, refl, suc, sym, true, zero, ℕ, ◌%◌, ◌*◌, ◌++◌, ◌+◌,
  ◌-◌, ◌/◌, ◌<◌, ◌==◌, ◌^◌, ◌∙◌, ◌∷◌, ◌≡◌, ◌≢◌,
}
use paradox_os.Process.{Kernel, scheduler_schedule}
use paradox_os.Process.Rotation.{schedules}
use paradox_os.Timer.{Timer, timer_handler, timer_init, pit_divisor}

-- `n` interrupts of the timer.
unfoldable pub ticks : ℕ → Timer → Timer
ticks zero s = s
ticks (suc n) s = ticks n (timer_handler s)

schedules-one : (n : ℕ) (k : Kernel) → schedules n (scheduler_schedule k).1 ≡ schedules (suc n) k
unfolding schedules
schedules-one n k = refl

schedules-zero : (k : Kernel) → schedules 0 k ≡ k
unfolding schedules
schedules-zero k = refl

handler_due :
    (s : Timer)
    → s.timer_ticks + 1 < 2 ^ 64
    → ((s.timer_ticks + 1) % 10 == 0) ≡ true
    → timer_handler s
      ≡ record s { timer_ticks = s.timer_ticks + 1; kernel = (scheduler_schedule s.kernel).1 }
unfolding timer_handler
handler_due s h due =
    let next : (s.timer_ticks + 1) % 2 ^ 64 ≡ s.timer_ticks + 1 = omega arith in rw (next, due) refl

handler_early :
    (s : Timer)
    → s.timer_ticks + 1 < 2 ^ 64
    → ((s.timer_ticks + 1) % 10 == 0) ≡ false
    → timer_handler s ≡ record s { timer_ticks = s.timer_ticks + 1 }
unfolding timer_handler
handler_early s h early =
    let next : (s.timer_ticks + 1) % 2 ^ 64 ≡ s.timer_ticks + 1 = omega arith in
    rw (next, early) refl

-- As long as the counter does not wrap, `n` interrupts count `n` ticks and schedule exactly once for
-- every multiple of ten that the counter reaches.
pub ticks-schedules :
    (n : ℕ) (s : Timer)
    → s.timer_ticks + n < 2 ^ 64
    → ((ticks n s).timer_ticks ≡ s.timer_ticks + n)
      × ((ticks n s).kernel ≡ schedules ((s.timer_ticks + n) / 10 - s.timer_ticks / 10) s.kernel)
unfolding ticks
ticks-schedules zero s h =
    let none_due : (s.timer_ticks + 0) / 10 - s.timer_ticks / 10 ≡ 0 = omega arith in
    (omega arith, rw none_due (sym (schedules-zero s.kernel)))
ticks-schedules (suc n) s h =
    let all : s.timer_ticks + 1 + n ≡ s.timer_ticks + suc n = omega arith in
    elim (Bool-cases ((s.timer_ticks + 1) % 10 == 0)) [
      | inl due ↦
          let t : Timer = record s {
            timer_ticks = s.timer_ticks + 1;
            kernel = (scheduler_schedule s.kernel).1;
          } in
          let ih = ticks-schedules n t (omega arith) in
          let zero_left : (s.timer_ticks + 1) % 10 ≡ 0 = ground arith in
          let more : suc ((s.timer_ticks + 1 + n) / 10 - (s.timer_ticks + 1) / 10)
              ≡ (s.timer_ticks + suc n) / 10 - s.timer_ticks / 10 =
            omega arith in
          let e : ticks (suc n) s ≡ ticks n t = ap (ticks n) (handler_due s (omega arith) due) in
          rw e (ih.0 ∙ all, ih.1 ∙ schedules-one _ s.kernel ∙ ap (λ k. schedules k s.kernel) more)
      | inr early ↦
          let t : Timer = record s { timer_ticks = s.timer_ticks + 1 } in
          let ih = ticks-schedules n t (omega arith) in
          let some_left : (s.timer_ticks + 1) % 10 ≢ 0 = ground arith in
          let same : (s.timer_ticks + 1 + n) / 10 - (s.timer_ticks + 1) / 10
              ≡ (s.timer_ticks + suc n) / 10 - s.timer_ticks / 10 =
            omega arith in
          let e : ticks (suc n) s ≡ ticks n t =
            ap (ticks n) (handler_early s (omega arith) early) in
          rw e (ih.0 ∙ all, ih.1 ∙ ap (λ k. schedules k s.kernel) same)
    ]

-- The two bytes that `timer_init` writes to the channel, low byte first, make up its divisor.
pub timer_init-divisor :
    (s : Timer) (frequency : ℕ)
    → (low : ℕ) × (high : ℕ) × ((timer_init s frequency).channel
        ≡ s.channel ++ ((0x43, 0x34) ∷ ((0x40, low) ∷ ((0x40, high) ∷ []))))
      × (low < 256)
      × (high < 256)
      × (low + 256 * high ≡ pit_divisor frequency)
unfolding timer_init
timer_init-divisor s frequency =
    let small : pit_divisor frequency < 65536 = ground arith in
    (
      pit_divisor frequency % 256,
      pit_divisor frequency / 256 % 256,
      refl,
      omega arith,
      omega arith,
      omega arith,
    )
