-- ===== src/Gui/Windows.antt =====
-- The window manager in src/kernel/gui.cpp: the table of windows and the order in which they are painted.
-- `screen_w` and `screen_h` are what `fb_width` and `fb_height` give. An index of `int` that may be -1 is an
-- option.
pub mod Order
pub mod Table
pub mod Opening
pub mod Closing
pub mod Start
pub mod Entries
pub mod Places
mod Tests
use paradox_os.Base.{
  Bool, List, Option, [], false, for_range, get_or, if◌then◌else◌, leb, none, not, set, some, suc,
  true, zero, ℕ, ◌%◌, ◌&&◌, ◌*◌, ◌+◌, ◌-◌, ◌==◌, ◌||◌, ◌∷◌,
}
use paradox_os.Base.Int.{ℤ, pos, negsuc, ◌+ℤ◌, ◌-ℤ◌, ltb_ℤ, leb_ℤ}
use paradox_os.Base.Text.{codes}
use paradox_os.Gui.Terminal.{Term, term_cols, term_rows}

pub data AppType : Type 0 where
  app_terminal : AppType
  app_files : AppType
  app_monitor : AppType
  app_about : AppType
  app_editor : AppType
  app_calculator : AppType

abbrev pub app_code : AppType → ℕ
app_code app_terminal = 0
app_code app_files = 1
app_code app_monitor = 2
app_code app_about = 3
app_code app_editor = 4
app_code app_calculator = 5

abbrev pub max_windows : ℕ
max_windows = 8

pub record Window : Type 0 where
  pub used : Bool
  pub x : ℤ
  pub y : ℤ
  pub w : ℤ
  pub h : ℤ
  pub app : AppType
  pub title : List ℕ

abbrev pub no_window : Window
no_window = record {
  used = false;
  x = pos 0;
  y = pos 0;
  w = pos 0;
  h = pos 0;
  app = app_terminal;
  title = [];
}

-- The static variables of the window manager, and the terminal for its flag.
pub record Desk : Type 0 where
  pub windows : List Window
  pub z_order : List ℕ
  pub z_count : ℕ
  pub next_cascade : ℕ
  pub term : Term

abbrev pub window_at : List Window → ℕ → Window
window_at ws i = get_or ws i no_window

abbrev pub mark_dirty : Desk → Desk
mark_dirty s = record s { term = record s.term { dirty = true } }

-- The loop that looks for a window in the order, with the places that are left.
unfoldable pub find_pos : List ℕ → ℕ → ℕ → ℕ → Option ℕ
find_pos z idx zero i = none
find_pos z idx (suc n) i =
    let rest = find_pos z idx n (i + 1) in if get_or z i 0 == idx then some i else rest

-- The loop that moves the windows above `p` down by one.
unfoldable pub close_gap : List ℕ → ℕ → ℕ → List ℕ
close_gap z count p = for_range (count - 1 - p) p (λ i y. set y i (get_or y (i + 1) 0)) z

unfoldable pub z_bring_to_top : Desk → ℕ → Desk
z_bring_to_top s idx = elim (find_pos s.z_order idx s.z_count 0) [
  | none ↦ s
  | some p ↦ record s { z_order = set (close_gap s.z_order s.z_count p) (s.z_count - 1) idx }
]

unfoldable pub z_remove : Desk → ℕ → Desk
z_remove s idx = elim (find_pos s.z_order idx s.z_count 0) [
  | none ↦ s
  | some p ↦ record s { z_order = close_gap s.z_order s.z_count p; z_count = s.z_count - 1 }
]

-- The two loops over the table, from window `i` on.
unfoldable pub find_type_from : List Window → ℕ → AppType → Option ℕ
find_type_from [] i t = none
find_type_from (v ∷ vs) i t =
    let rest = find_type_from vs (i + 1) t in
    if v.used && (app_code v.app == app_code t) then some i else rest

unfoldable pub alloc_from : List Window → ℕ → Option ℕ
alloc_from [] i = none
alloc_from (v ∷ vs) i = let rest = alloc_from vs (i + 1) in if not v.used then some i else rest

unfoldable pub find_window_of_type : Desk → AppType → Option ℕ
find_window_of_type s t = find_type_from s.windows 0 t

unfoldable pub alloc_window : Desk → Option ℕ
alloc_window s = alloc_from s.windows 0

-- The switch on the application: the terminal has room for its cells, of 8 by 16 pixels each.
abbrev pub wanted_w : AppType → ℕ
wanted_w app_terminal = term_cols * 8 + 2 * 8
wanted_w app_files = 760
wanted_w app_monitor = 540
wanted_w app_about = 500
wanted_w app_editor = 720
wanted_w app_calculator = 280

abbrev pub wanted_h : AppType → ℕ
wanted_h app_terminal = term_rows * 16 + 24 + 2 * 8
wanted_h app_files = 520
wanted_h app_monitor = 380
wanted_h app_about = 340
wanted_h app_editor = 520
wanted_h app_calculator = 360

abbrev pub title_for : AppType → List ℕ
title_for app_terminal = codes "Terminal"
title_for app_files = codes "Files"
title_for app_monitor = codes "System Monitor"
title_for app_about = codes "About ParadoxOS"
title_for app_editor = codes "Editor"
title_for app_calculator = codes "Calculator"

abbrev pub at_most : ℤ → ℤ → ℤ
at_most limit v = if ltb_ℤ limit v then limit else v

-- `if (base + size > edge) base = edge - size`
unfoldable pub pulled_in : ℤ → ℤ → ℤ → ℤ
unfolding ◌+ℤ◌ ◌-ℤ◌
pulled_in edge size base = if ltb_ℤ edge (base +ℤ size) then edge -ℤ size else base

-- The size and the place of a new window.
unfoldable pub new_window : ℤ → ℤ → ℕ → AppType → Window
unfolding ◌+ℤ◌ ◌-ℤ◌
new_window screen_w screen_h cascade t =
    let w = at_most (screen_w -ℤ pos 40) (pos (wanted_w t)) in
    let h = at_most (screen_h -ℤ pos 80) (pos (wanted_h t)) in
    record {
      used = true;
      x = pulled_in (screen_w -ℤ pos 10) w (pos (160 + cascade % 4 * 26));
      y = pulled_in (screen_h -ℤ pos 50) h (pos (60 + cascade % 4 * 26));
      w = w;
      h = h;
      app = t;
      title = title_for t;
    }

unfoldable pub open_app : Desk → ℕ → ℕ → AppType → Desk
open_app s screen_w screen_h t = elim (find_window_of_type s t) [
  | some existing ↦ mark_dirty (z_bring_to_top s existing)
  | none ↦ elim (alloc_window s) [
    | none ↦ s
    | some idx ↦ mark_dirty (record s {
      windows = set s.windows idx (new_window (pos screen_w) (pos screen_h) s.next_cascade t);
      z_order = set s.z_order s.z_count idx;
      z_count = s.z_count + 1;
      next_cascade = s.next_cascade + 1;
    })
  ]
]

unfoldable pub close_window : Desk → ℕ → Desk
close_window s idx =
    if leb max_windows idx || not (window_at s.windows idx).used
    then s
    else let v = window_at s.windows idx in
      mark_dirty
        (z_remove (record s { windows = set s.windows idx (record v { used = false }) }) idx)
