-- ===== src/Gui/Input/Press.antt =====
-- A press of the left button, `handle_left_press` of src/kernel/gui.cpp.
use paradox_os.Base.{
  Bool, List, Option, [], false, get_or, if◌then◌else◌, none, some, suc, true, zero, ℕ, ◌+◌, ◌∷◌,
}
use paradox_os.Base.Int.{ℤ, pos, ◌-ℤ◌, leb_ℤ}
use paradox_os.Gui.Windows.{
  AppType, app_files, app_editor, app_calculator, Desk, window_at, z_bring_to_top, close_window,
}
use paradox_os.Gui.Input.{
  DiskFs, Gui, point_in, in_rect, point_in_close_btn, point_in_titlebar, taskbar_btn_rect, icons,
}
use paradox_os.Gui.Input.Clicks.{
  open_type, files_handle_click, editor_handle_click, calculator_handle_click,
}

-- The topmost painted window that the point is in, below place `i` of the order.
unfoldable pub window_under : Desk → ℕ → ℤ → ℤ → Option ℕ
window_under s zero cx cy = none
window_under s (suc i) cx cy =
    let rest = window_under s i cx cy in
    let idx = get_or s.z_order i 0 in
    let w = window_at s.windows idx in if point_in cx cy w.x w.y w.w w.h then some idx else rest

module _ {D : Type 0} where
  -- The loop over the buttons of the taskbar, with the windows that are left.
  unfoldable pub press_taskbar : ℕ → ℕ → Gui D → ℤ → ℤ → Bool × Gui D
  press_taskbar zero i s cx cy = (false, s)
  press_taskbar (suc n) i s cx cy =
      let rest = press_taskbar n (i + 1) s cx cy in
      elim (taskbar_btn_rect s.desk s.screen_h i) [
        | none ↦ (false, s)
        | some r ↦
            if in_rect cx cy r
            then (true, record s { desk = z_bring_to_top s.desk (get_or s.desk.z_order i 0) })
            else rest
      ]

  unfoldable pub press_icon : List (ℤ × ℤ × AppType) → Gui D → ℤ → ℤ → Bool × Gui D
  press_icon [] s cx cy = (false, s)
  press_icon ((x, y, app) ∷ rest) s cx cy =
      let later = press_icon rest s cx cy in
      if point_in cx cy x y (pos 80) (pos 80) then (true, open_type s app) else later

  -- What a click in the window does behind its title, by the application.
  abbrev pub click_content : DiskFs D → ℕ → AppType → Gui D → ℤ → ℤ → Gui D
  click_content fs now app_files s cx cy = (files_handle_click s cx cy).1
  click_content fs now app_editor s cx cy = (editor_handle_click fs now s cx cy).1
  click_content fs now app_calculator s cx cy = (calculator_handle_click s cx cy).1
  click_content fs now _ s cx cy = s

  unfoldable pub press_window : DiskFs D → ℕ → Gui D → ℕ → ℤ → ℤ → Gui D
  unfolding ◌-ℤ◌
  press_window fs now s idx cx cy =
      let w = window_at s.desk.windows idx in
      if point_in_close_btn w cx cy
      then record s { desk = close_window s.desk idx }
      else let t : Gui D = record s { desk = z_bring_to_top s.desk idx } in
        if point_in_titlebar w cx cy
        then record t { drag_idx = some idx; drag_off_x = w.x -ℤ cx; drag_off_y = w.y -ℤ cy }
        else click_content fs now w.app t cx cy

  unfoldable pub handle_left_press : DiskFs D → ℕ → Gui D → ℤ → ℤ → Bool × Gui D
  unfolding ◌-ℤ◌
  handle_left_press fs now s cx cy =
      if leb_ℤ (pos s.screen_h -ℤ pos 32) cy
      then press_taskbar s.desk.z_count 0 s cx cy
      else elim (window_under s.desk s.desk.z_count cx cy) [
        | some idx ↦ (true, press_window fs now s idx cx cy)
        | none ↦ press_icon icons s cx cy
      ]
