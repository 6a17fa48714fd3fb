-- ===== src/Gui/Input.antt =====
-- The input of the desktop in src/kernel/gui.cpp: clicks, keys, dragging and the tick. The button rectangles
-- are those of the last drawing. A node is a pointer of the file system, with 0 for null. The disk file
-- system stands behind `DiskFs`.
pub mod Clicks
pub mod Press
pub mod Areas
pub mod Tick
pub mod Safe
pub mod Start
pub mod Clicked
pub mod Pressed
pub mod Ticked
mod Tests
use paradox_os.Base.{
  Bool, List, Option, [], if◌then◌else◌, leb, none, set, some, take, ℕ, ◌&&◌, ◌*◌, ◌++◌, ◌+◌, ◌-◌,
  ◌∷◌,
}
use paradox_os.Base.Int.{ℤ, pos, negsuc, ◌+ℤ◌, ◌-ℤ◌, ltb_ℤ, leb_ℤ}
use paradox_os.Base.Text.{codes}
use paradox_os.Base.Bits.{test_bit}
use paradox_os.Vfs.{
  Vfs, VfsNode, VfsKind, is_file, is_dir, is_exec, vfs_append_char, vfs_pop_char, vfs_run,
  vfs_path_of,
}
use paradox_os.Mouse.{MouseEvent}
use paradox_os.Gui.Calculator.{Calc, calc_press}
use paradox_os.Gui.Windows.{
  AppType, app_terminal, app_files, app_monitor, app_about, app_editor, app_calculator, app_code,
  Window, Desk, window_at, mark_dirty, z_bring_to_top, find_window_of_type, open_app, close_window,
}

pub record BtnRect : Type 0 where
  pub x : ℤ
  pub y : ℤ
  pub w : ℤ
  pub h : ℤ

-- `diskfs_save`, on the disk `D`
pub record DiskFs (D : Type 0) : Type 0 where
  pub diskfs_save : D → Vfs → ℕ → Bool × D

pub record Gui (D : Type 0) : Type 0 where
  pub desk : Desk
  pub screen_w : ℕ
  pub screen_h : ℕ
  pub drag_idx : Option ℕ
  pub drag_off_x : ℤ
  pub drag_off_y : ℤ
  pub calc : Calc
  pub calc_btns : List (BtnRect × List ℕ)
  pub vfs : Vfs
  pub disk : D
  pub files_dir : ℕ
  pub files_selected : ℕ
  pub editor_file : ℕ
  pub last_save_tick : ℕ
  pub btn_open : BtnRect
  pub btn_edit : BtnRect
  pub btn_run : BtnRect
  pub btn_save : BtnRect
  pub files_rows : List (ℤ × ℕ)
  pub files_row_x : ℤ
  pub files_row_w : ℤ
  pub files_row_h : ℤ
  pub args_buf : List ℕ
  pub args_focused : Bool
  pub args_field : BtnRect
  pub last_x : ℤ
  pub last_y : ℤ
  pub last_paint_tick : ℕ

unfoldable pub point_in : ℤ → ℤ → ℤ → ℤ → ℤ → ℤ → Bool
unfolding ◌+ℤ◌
point_in px py x y w h = leb_ℤ x px && (ltb_ℤ px (x +ℤ w) && (leb_ℤ y py && ltb_ℤ py (y +ℤ h)))

abbrev pub in_rect : ℤ → ℤ → BtnRect → Bool
in_rect cx cy r = point_in cx cy r.x r.y r.w r.h

-- The close button is 12 by 12 pixels, 10 from the right, in the middle of the 24 rows of the title.
pub point_in_close_btn : Window → ℤ → ℤ → Bool
unfolding ◌+ℤ◌ ◌-ℤ◌
point_in_close_btn w px py =
    point_in px py (w.x +ℤ w.w -ℤ pos 10 -ℤ pos 12) (w.y +ℤ pos 6) (pos 12) (pos 12)

pub point_in_titlebar : Window → ℤ → ℤ → Bool
point_in_titlebar w px py = point_in px py w.x w.y w.w (pos 24)

-- The button of the `z_idx`-th painted window, if there is one.
unfoldable pub taskbar_btn_rect : Desk → ℕ → ℕ → Option BtnRect
unfolding ◌+ℤ◌ ◌-ℤ◌
taskbar_btn_rect s screen_h z_idx =
    if leb s.z_count z_idx
    then none
    else some (record {
      x = pos (110 + z_idx * 146);
      y = pos screen_h -ℤ pos 32 +ℤ pos 4;
      w = pos 140;
      h = pos 24;
    })

-- Where the icons of 80 by 80 pixels are, and what they open.
abbrev pub icons : List (ℤ × ℤ × AppType)
icons =
    (pos 30, pos 40, app_terminal)
    ∷ (pos 30, pos 150, app_files)
    ∷ (pos 30, pos 260, app_monitor)
    ∷ (pos 30, pos 370, app_calculator)
    ∷ (pos 30, pos 480, app_about)
    ∷ []

-- `windows[idx].title = title`
abbrev pub set_title : Desk → ℕ → List ℕ → Desk
set_title s idx title = record s {
  windows = set s.windows idx (record (window_at s.windows idx) { title = title });
}

-- The title is at most 95 characters.
pub editor_title : Vfs → ℕ → List ℕ
editor_title s f = take 95 (codes "Editor - " ++ vfs_path_of s f 80)
