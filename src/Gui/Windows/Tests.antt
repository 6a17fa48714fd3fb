-- ===== src/Gui/Windows/Tests.antt =====
-- A desktop with two windows.
use paradox_os.Base.{
  All-get_or, All-replicate, [], arith, false, for_range, length, refl, replicate, sym, ℕ, ◌∷◌, ◌≡◌,
  ◌≤◌,
}
use paradox_os.Base.Int.{pos, ◌+ℤ◌, ◌-ℤ◌, ◌≤ℤ◌, ◌<ℤ◌}
use paradox_os.Gui.Windows.{
  Desk, Window, window_at, no_window, app_files, app_editor, app_terminal, new_window, open_app,
  close_window, z_bring_to_top, find_window_of_type, alloc_window, find_type_from, alloc_from,
  find_pos, close_gap,
}
use paradox_os.Gui.Windows.Order.{painted, Raised, z_bring_to_top_lem}
use paradox_os.Gui.Windows.Table.{IsValid, z_count-le}
use paradox_os.Gui.Windows.Opening.{open_app-IsValid}
use paradox_os.Gui.Windows.Closing.{close_window-IsValid}
use paradox_os.Gui.Windows.Places.{new_window-on_screen}

-- What `gui_init` leaves
abbrev empty_desk : Desk
empty_desk = record {
  windows = replicate 8 no_window;
  z_order = replicate 8 0;
  z_count = 0;
  next_cascade = 0;
  term = record { cells = λ i j. 32; cur_row = 0; cur_col = 0; dirty = false };
}

unused_everywhere : (i : ℕ) → (window_at (replicate 8 no_window) i).used ≡ false
unused_everywhere i =
    All-get_or (λ (u : Window). u.used ≡ false) (replicate 8 no_window) i no_window
      (All-replicate (λ (u : Window). u.used ≡ false) 8 no_window refl) refl

empty_desk-IsValid : IsValid empty_desk
empty_desk-IsValid = record {
  table_size = refl;
  order_size = refl;
  count = refl;
  once = tt;
  shown = λ i. sym (unused_everywhere i);
  one_each = λ i j t hi hj. absurd (ground (arith, hi, unused_everywhere i));
}

abbrev two : Desk
two = open_app (open_app empty_desk 1024 768 app_files) 1024 768 app_editor

two-IsValid : IsValid two
two-IsValid =
    open_app-IsValid 1024 768 app_editor (open_app-IsValid 1024 768 app_files empty_desk-IsValid)

closed-IsValid : IsValid (close_window two 0)
closed-IsValid = close_window-IsValid 0 two-IsValid

-- The editor stays at the bottom when the files come up again.
files_on_top : painted (open_app two 1024 768 app_files) ≡ (1 ∷ 0 ∷ [])
unfolding open_app find_window_of_type alloc_window find_type_from alloc_from z_bring_to_top
    find_pos close_gap for_range new_window
files_on_top = refl

two_fits : two.z_count ≤ length two.z_order
two_fits = z_count-le two-IsValid

z_bring_to_top_lem_example : Raised two 0 (z_bring_to_top two 0)
z_bring_to_top_lem_example = z_bring_to_top_lem two 0 two_fits

new_window-on_screen_example :
    ((pos 30 ≤ℤ (new_window (pos 1024) (pos 768) 5 app_terminal).x)
      × ((new_window (pos 1024) (pos 768) 5 app_terminal).x
            +ℤ (new_window (pos 1024) (pos 768) 5 app_terminal).w
          ≤ℤ pos 1024 -ℤ pos 10)
      × (pos 0 <ℤ (new_window (pos 1024) (pos 768) 5 app_terminal).w))
    × ((pos 30 ≤ℤ (new_window (pos 1024) (pos 768) 5 app_terminal).y)
        × ((new_window (pos 1024) (pos 768) 5 app_terminal).y
              +ℤ (new_window (pos 1024) (pos 768) 5 app_terminal).h
            ≤ℤ pos 768 -ℤ pos 50)
        × (pos 0 <ℤ (new_window (pos 1024) (pos 768) 5 app_terminal).h))
new_window-on_screen_example =
    new_window-on_screen 1024 768 5 app_terminal (omega arith) (omega arith)
