-- ===== src/Gui/Input/Tick.antt =====
-- Keys and the tick of the desktop, `gui_handle_key` and `gui_tick` of src/kernel/gui.cpp.
use paradox_os.Base.{
  Bool, Option, [], false, get_or, if◌then◌else◌, leb, length, ltb, none, not, set, some, take,
  true, ℕ, ◌%◌, ◌&&◌, ◌++◌, ◌+◌, ◌-◌, ◌==◌, ◌^◌, ◌||◌, ◌∷◌,
}
use paradox_os.Base.Int.{ℤ, pos, ◌+ℤ◌, ◌-ℤ◌, ltb_ℤ, leb_ℤ}
use paradox_os.Base.Bits.{test_bit}
use paradox_os.Vfs.{vfs_append_char, vfs_pop_char}
use paradox_os.Mouse.{MouseEvent}
use paradox_os.Gui.Windows.{app_editor, app_code, Window, window_at, mark_dirty}
use paradox_os.Gui.Input.{DiskFs, Gui}
use paradox_os.Gui.Input.Press.{handle_left_press}
use paradox_os.Gui.Input.Areas.{gui_present}

abbrev pub between : ℕ → Bool
between c = leb 32 c && ltb c 127

module _ {D : Type 0} where
  abbrev pub dirty_if : Bool → Gui D → Gui D
  dirty_if b s = if b then record s { desk = mark_dirty s.desk } else s

  -- A key while the field of the arguments has the focus.
  unfoldable pub args_key : Gui D → ℕ → Gui D
  args_key s c =
      if c == 8
      then (if ltb 0 (length s.args_buf)
          then record s {
            args_buf = take (length s.args_buf - 1) s.args_buf;
            desk = mark_dirty s.desk;
          }
          else s)
      else if (c == 10) || (c == 13)
      then record s { args_focused = false; desk = mark_dirty s.desk }
      else if between c && ltb (length s.args_buf + 1) 96
      then record s { args_buf = s.args_buf ++ (c ∷ []); desk = mark_dirty s.desk }
      else s

  -- The result of `vfs_append_char` is not looked at; `none` stands for a loop that does not end.
  abbrev pub append_key : Gui D → ℕ → Option (Gui D)
  append_key s c = elim (vfs_append_char s.vfs s.editor_file c) [
    | none ↦ none
    | some (done, v) ↦ some (record s { vfs = v; desk = mark_dirty s.desk })
  ]

  unfoldable pub editor_key : Gui D → ℕ → Option (Gui D)
  editor_key s c =
      let appended = append_key s c in
      let (popped, v) = vfs_pop_char s.vfs s.editor_file in
      if c == 8
      then some (dirty_if popped (record s { vfs = v }))
      else if (c == 10) || (c == 13)
      then append_key s 10
      else if between c
      then appended
      else some s

  -- Whether the key is taken, and what it does.
  unfoldable pub gui_handle_key : Gui D → ℕ → Option (Bool × Gui D)
  gui_handle_key s c =
      if s.args_focused
      then some (true, args_key s c)
      else if s.desk.z_count == 0
      then some (false, s)
      else let top = get_or s.desk.z_order (s.desk.z_count - 1) 0 in
        if not (app_code (window_at s.desk.windows top).app == app_code app_editor)
          || (s.editor_file == 0)
        then some (false, s)
        else elim (editor_key s c) [ none ↦ none | some t ↦ some (true, t) ]

abbrev pub clamp_low : ℤ → ℤ → ℤ
clamp_low low v = if ltb_ℤ v low then low else v

abbrev pub clamp_high : ℤ → ℤ → ℤ
clamp_high high v = if ltb_ℤ high v then high else v

abbrev pub eq_ℤ : ℤ → ℤ → Bool
eq_ℤ a b = leb_ℤ a b && leb_ℤ b a

-- Where a window goes while the pointer drags it: 80 pixels stay on the screen, and the title bar does
-- not go above the screen or into the taskbar.
unfoldable pub drag_x : ℕ → Window → ℤ → ℤ → ℤ
unfolding ◌+ℤ◌ ◌-ℤ◌
drag_x screen_w w pointer off =
    clamp_high (pos screen_w -ℤ pos 80) (clamp_low (pos 80 -ℤ w.w) (pointer +ℤ off))

unfoldable pub drag_y : ℕ → ℤ → ℤ → ℤ
unfolding ◌+ℤ◌ ◌-ℤ◌
drag_y screen_h pointer off =
    clamp_high (pos screen_h -ℤ pos 24 -ℤ pos 32) (clamp_low (pos 0) (pointer +ℤ off))

module _ {D : Type 0} where
  abbrev pub move_window : Gui D → ℕ → ℤ → ℤ → Gui D
  move_window s idx nx ny = record s {
    desk = record s.desk {
      windows = set s.desk.windows idx (record (window_at s.desk.windows idx) { x = nx; y = ny });
    };
  }

  -- Each step of the tick gives whether a repaint is needed.
  unfoldable pub drag_to : Gui D → ℕ → MouseEvent → Bool × Gui D
  drag_to s idx ev =
      let w = window_at s.desk.windows idx in
      let nx = drag_x s.screen_w w ev.x s.drag_off_x in
      let ny = drag_y s.screen_h ev.y s.drag_off_y in
      if not w.used || (eq_ℤ w.x nx && eq_ℤ w.y ny)
      then (false, s)
      else (true, move_window s idx nx ny)

  unfoldable pub update_drag : Gui D → MouseEvent → Bool × Gui D
  update_drag s ev = elim s.drag_idx [ none ↦ (false, s) | some idx ↦ drag_to s idx ev ]

  unfoldable pub begin_press : DiskFs D → ℕ → Gui D → MouseEvent → Bool × Gui D
  begin_press fs now s ev = elim s.drag_idx [
    | some idx ↦ (false, s)
    | none ↦ if test_bit ev.pressed 0 then handle_left_press fs now s ev.x ev.y else (false, s)
  ]

  unfoldable pub end_drag : Gui D → MouseEvent → Gui D
  end_drag s ev = if test_bit ev.released 0 then record s { drag_idx = none } else s

  -- The pointer has moved, or it is time to paint again.
  unfoldable pub watch : ℕ → Gui D → MouseEvent → Bool × Gui D
  watch now s ev =
      let moved = not (eq_ℤ ev.x s.last_x) || not (eq_ℤ ev.y s.last_y) in
      let due = leb 10 ((now + 2 ^ 64 - s.last_paint_tick) % 2 ^ 64) in
      (
        moved || due,
        record s {
          last_x = ev.x;
          last_y = ev.y;
          last_paint_tick = if due then now else s.last_paint_tick;
        },
      )

  unfoldable pub gui_tick : DiskFs D → ℕ → Gui D → MouseEvent → Gui D
  gui_tick fs now s ev =
      let need = s.desk.term.dirty in
      let (pressed, t) = begin_press fs now s ev in
      let (moved, u) = update_drag t ev in
      let (seen, v) = watch now (end_drag u ev) ev in
      if need || (pressed || (moved || seen))
      then gui_present
          (record v { desk = record v.desk { term = record v.desk.term { dirty = false } } })
      else v
