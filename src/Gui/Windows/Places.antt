-- ===== src/Gui/Windows/Places.antt =====
-- Where a new window is put.
use paradox_os.Base.{arith, ℕ, ◌%◌, ◌*◌, ◌+◌, ◌<◌, ◌≤◌}
use paradox_os.Base.Int.{pos, ◌+ℤ◌, ◌-ℤ◌, ◌≤ℤ◌, ◌<ℤ◌}
use paradox_os.Gui.Windows.{
  AppType, app_terminal, app_files, app_monitor, app_about, app_editor, app_calculator, at_most,
  pulled_in, wanted_w, wanted_h, new_window,
}

-- One side of a window: the margins of a screen of `screen` pixels are kept.
side :
    (screen wanted base edge : ℕ)
    → edge + 30 < screen
    → 0 < wanted
    → 30 ≤ base
    → (pos 30
        ≤ℤ pulled_in
            (pos screen -ℤ pos edge)
            (at_most (pos screen -ℤ pos (edge + 30)) (pos wanted))
            (pos base))
      × (pulled_in
              (pos screen -ℤ pos edge)
              (at_most (pos screen -ℤ pos (edge + 30)) (pos wanted))
              (pos base)
            +ℤ at_most (pos screen -ℤ pos (edge + 30)) (pos wanted)
          ≤ℤ pos screen -ℤ pos edge)
      × (pos 0 <ℤ at_most (pos screen -ℤ pos (edge + 30)) (pos wanted))
unfolding pulled_in ◌+ℤ◌ ◌-ℤ◌
side screen wanted base edge room some_size inside = (ground arith, ground arith, ground arith)

wants_some : (t : AppType) → (0 < wanted_w t) × (0 < wanted_h t)
wants_some app_terminal = (omega arith, omega arith)
wants_some app_files = (omega arith, omega arith)
wants_some app_monitor = (omega arith, omega arith)
wants_some app_about = (omega arith, omega arith)
wants_some app_editor = (omega arith, omega arith)
wants_some app_calculator = (omega arith, omega arith)

-- On a screen of more than 40 by 80 pixels, a new window has a size and lies on the screen, whatever
-- the application and the number of windows opened before: 30 pixels from the left and the top at
-- least, 10 from the right, and above the 50 rows at the bottom, where the taskbar is.
pub new_window-on_screen :
    (screen_w screen_h cascade : ℕ) (t : AppType)
    → 40 < screen_w
    → 80 < screen_h
    → ((pos 30 ≤ℤ (new_window (pos screen_w) (pos screen_h) cascade t).x)
        × ((new_window (pos screen_w) (pos screen_h) cascade t).x
              +ℤ (new_window (pos screen_w) (pos screen_h) cascade t).w
            ≤ℤ pos screen_w -ℤ pos 10)
        × (pos 0 <ℤ (new_window (pos screen_w) (pos screen_h) cascade t).w))
      × ((pos 30 ≤ℤ (new_window (pos screen_w) (pos screen_h) cascade t).y)
          × ((new_window (pos screen_w) (pos screen_h) cascade t).y
                +ℤ (new_window (pos screen_w) (pos screen_h) cascade t).h
              ≤ℤ pos screen_h -ℤ pos 50)
          × (pos 0 <ℤ (new_window (pos screen_w) (pos screen_h) cascade t).h))
unfolding new_window
new_window-on_screen screen_w screen_h cascade t wide high = (
  side screen_w (wanted_w t) (160 + cascade % 4 * 26) 10 (omega arith) (wants_some t).0
      (omega arith),
  side screen_h (wanted_h t) (60 + cascade % 4 * 26) 50 (omega arith) (wants_some t).1
      (omega arith),
)
