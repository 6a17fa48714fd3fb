-- ===== src/Timer.antt =====
-- The timer, src/kernel/timer.cpp with src/include/timer.h. `channel` collects the bytes written to the
-- ports of the timer, as pairs of a port and a value; the timer has the processes it schedules.
pub mod Ticks
mod Tests
use paradox_os.Base.{List, [], if◌then◌else◌, ltb, ℕ, ◌%◌, ◌*◌, ◌++◌, ◌+◌, ◌/◌, ◌==◌, ◌^◌, ◌∷◌}
use paradox_os.Process.{Kernel, scheduler_schedule}
use paradox_os.Pic.{Pic, pic_clear_mask}

pub record Timer : Type 0 where
  pub timer_ticks : ℕ
  pub timer_frequency : ℕ
  pub channel : List (ℕ × ℕ)
  pub pic : Pic
  pub kernel : Kernel

abbrev pub pit_frequency : ℕ
pit_frequency = 1193182

abbrev pub pit_divisor : ℕ → ℕ
pit_divisor frequency =
    let divisor = pit_frequency / frequency in if ltb 65535 divisor then 65535 else divisor

-- The frequency is not 0. The command selects channel 0, both bytes and the rate generator.
unfoldable pub timer_init : Timer → ℕ → Timer
timer_init s frequency =
    let divisor = pit_divisor frequency in
    record s {
      timer_frequency = frequency;
      channel =
          s.channel
          ++ ((0x43, 0x34) ∷ ((0x40, divisor % 256) ∷ ((0x40, divisor / 256 % 256) ∷ [])));
      pic = pic_clear_mask s.pic 0;
    }

unfoldable pub timer_handler : Timer → Timer
timer_handler s =
    let ticks = (s.timer_ticks + 1) % 2 ^ 64 in
    if ticks % 10 == 0
    then record s { timer_ticks = ticks; kernel = (scheduler_schedule s.kernel).1 }
    else record s { timer_ticks = ticks }

pub timer_get_ticks : Timer → ℕ
timer_get_ticks s = s.timer_ticks

-- The tick that `timer_sleep` waits for: the product is of `uint32_t`.
pub sleep_target : Timer → ℕ → ℕ
sleep_target s milliseconds =
    (s.timer_ticks + milliseconds * s.timer_frequency % 2 ^ 32 / 1000) % 2 ^ 64
