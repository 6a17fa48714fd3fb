-- ===== src/Gui/Input/Areas.antt =====
-- What drawing the windows in src/kernel/gui.cpp notes for the clicks: the rectangles of the buttons and the
-- rows of the files. The pixels that are drawn are left out.
use paradox_os.Base.{
  List, [], arith, for_range, for_range_inv, get_or, if◌then◌else◌, leb, length, not, refl, suc,
  zero, ℕ, ◌*◌, ◌++◌, ◌+◌, ◌==◌, ◌∷◌, ◌≡◌,
}
use paradox_os.Base.Int.{ℤ, pos, ◌+ℤ◌, ◌-ℤ◌, ◌*ℤ◌, ◌/ℤ◌, ltb_ℤ}
use paradox_os.Vfs.{VfsNode}
use paradox_os.Gui.Windows.{
  AppType, app_terminal, app_files, app_monitor, app_about, app_editor, app_calculator, Window,
  window_at,
}
use paradox_os.Gui.Input.{BtnRect, Gui}

abbrev pub files_max_rows : ℕ
files_max_rows = 64

abbrev pub rect : ℤ → ℤ → ℤ → ℤ → BtnRect
rect x y w h = record { x = x; y = y; w = w; h = h }

-- `bx`, `by`, `bw` and `bh`: a window without its title bar and its padding of 8 pixels
unfoldable pub body_rect : Window → BtnRect
unfolding ◌+ℤ◌ ◌-ℤ◌
body_rect w = rect (w.x +ℤ pos 8) (w.y +ℤ pos 24 +ℤ pos 8) (w.w -ℤ pos 16) (w.h -ℤ pos 24 -ℤ pos 16)

-- `draw_row`: the y coordinate of the next row, and the rows so far
unfoldable pub draw_row : ℤ → ℤ → ℤ × List (ℤ × ℕ) → ℕ → ℤ × List (ℤ × ℕ)
unfolding ◌+ℤ◌
draw_row row_h end_y (cur_y, rows) n =
    if leb files_max_rows (length rows)
    then (cur_y, rows)
    else if ltb_ℤ end_y (cur_y +ℤ row_h)
    then (cur_y, rows)
    else (cur_y +ℤ row_h, rows ++ ((cur_y, n) ∷ []))

-- The loop over the children, the first 64 of them: a row that is not drawn leaves no place for a later
-- one.
unfoldable pub draw_children : ℕ → (ℕ → VfsNode) → ℤ → ℤ → ℕ → ℤ × List (ℤ × ℕ) → ℤ × List (ℤ × ℕ)
draw_children zero nodes row_h end_y c acc = acc
draw_children (suc fuel) nodes row_h end_y c acc =
    let rest = draw_children fuel nodes row_h end_y (nodes c).next (draw_row row_h end_y acc c) in
    if c == 0 then acc else rest

-- The labels of the grid of four by four buttons
abbrev pub k_calc_labels : List ℕ
k_calc_labels =
    b'C' ∷ b'(' ∷ b')' ∷ b'/' ∷ b'7' ∷ b'8' ∷ b'9' ∷ b'*' ∷ b'4' ∷ b'5' ∷ b'6' ∷ b'-' ∷ b'1' ∷ b'2'
    ∷ b'3' ∷ b'+' ∷ []

-- The 18 buttons: the grid, and the wide ones for 0 and = below it
unfoldable pub calc_areas : Window → List (BtnRect × List ℕ)
unfolding ◌+ℤ◌ ◌-ℤ◌ ◌*ℤ◌ ◌/ℤ◌
calc_areas w =
    let b = body_rect w in
    let grid_y = b.y +ℤ pos 64 in
    let cell_w = (b.w -ℤ pos 12) /ℤ pos 4 in
    let row_y = grid_y +ℤ pos 192 in
    let wide = cell_w *ℤ pos 2 +ℤ pos 4 in
    let grid =
      for_range 4 0
        (λ row. for_range 4 0 (λ col btns.
          btns
          ++ ((
            rect (b.x +ℤ pos col *ℤ (cell_w +ℤ pos 4)) (grid_y +ℤ pos (row * 48)) cell_w (pos 44),
            get_or k_calc_labels (row * 4 + col) 0 ∷ [],
          )
              ∷ [])))
        [] in
    grid
    ++ ((rect b.x row_y wide (pos 44), b'0' ∷ [])
        ∷ (rect (b.x +ℤ cell_w *ℤ pos 2 +ℤ pos 8) row_y wide (pos 44), b'=' ∷ [])
        ∷ [])

module _ {D : Type 0} where
  unfoldable pub draw_files_in : Gui D → Window → Gui D
  unfolding ◌+ℤ◌ ◌-ℤ◌
  draw_files_in s w =
      let b = body_rect w in
      let dir = if s.files_dir == 0 then s.vfs.g_root else s.files_dir in
      let rows_y = b.y +ℤ pos 82 in
      let parent = (s.vfs.nodes dir).parent in
      let end_y = b.y +ℤ b.h in
      let first =
        if not (parent == 0)
        then draw_row s.files_row_h end_y (rows_y, []) parent
        else (rows_y, []) in
      record s {
        files_dir = dir;
        btn_open = rect b.x b.y (pos 60) (pos 22);
        btn_edit = rect (b.x +ℤ pos 66) b.y (pos 60) (pos 22);
        btn_run = rect (b.x +ℤ pos 132) b.y (pos 60) (pos 22);
        args_field = rect (b.x +ℤ pos 48) (b.y +ℤ pos 28) (b.w -ℤ pos 48) (pos 22);
        files_row_x = b.x;
        files_row_w = b.w;
        files_rows =
            (draw_children files_max_rows s.vfs.nodes s.files_row_h end_y
              (s.vfs.nodes dir).first_child first).1;
      }

  abbrev pub draw_editor_in : Gui D → Window → Gui D
  draw_editor_in s w = record s {
    btn_save = rect (body_rect w).x (body_rect w).y (pos 60) (pos 22);
  }

  abbrev pub draw_calculator_in : Gui D → Window → Gui D
  draw_calculator_in s w = record s { calc_btns = calc_areas w }

  -- By the application; the others note nothing.
  abbrev pub draw_window_content : AppType → Gui D → Window → Gui D
  draw_window_content app_files s w = draw_files_in s w
  draw_window_content app_editor s w = draw_editor_in s w
  draw_window_content app_calculator s w = draw_calculator_in s w
  draw_window_content _ s w = s

  -- The windows from the lowest to the topmost
  unfoldable pub gui_present : Gui D → Gui D
  gui_present s =
      for_range s.desk.z_count 0
        (λ i t.
          let w = window_at t.desk.windows (get_or t.desk.z_order i 0) in
          draw_window_content w.app t w)
        s

  -- Drawing changes neither the windows nor the dragging.
  pub record Drawn (s t : Gui D) : Type 0 where
    pub desk : t.desk ≡ s.desk
    pub drag : t.drag_idx ≡ s.drag_idx

  draw_window_content-Drawn :
      (app : AppType) (s t : Gui D) (w : Window) → Drawn s t → Drawn s (draw_window_content app t w)
  unfolding draw_files_in
  draw_window_content-Drawn app_terminal s t w d = d
  draw_window_content-Drawn app_files s t w d = record { desk = d.desk; drag = d.drag }
  draw_window_content-Drawn app_monitor s t w d = d
  draw_window_content-Drawn app_about s t w d = d
  draw_window_content-Drawn app_editor s t w d = record { desk = d.desk; drag = d.drag }
  draw_window_content-Drawn app_calculator s t w d = record { desk = d.desk; drag = d.drag }

  pub gui_present-Drawn : (s : Gui D) → Drawn s (gui_present s)
  unfolding gui_present
  gui_present-Drawn s =
      for_range_inv (λ i t. Drawn s t) _ s.desk.z_count 0 s.desk.z_count s (omega arith)
        (λ i t low high d.
          let w = window_at t.desk.windows (get_or t.desk.z_order i 0) in
          draw_window_content-Drawn w.app s t w d)
        (record { desk = refl; drag = refl })
