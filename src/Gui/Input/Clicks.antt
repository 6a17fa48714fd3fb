-- ===== src/Gui/Input/Clicks.antt =====
-- Clicks in the applications of src/kernel/gui.cpp.
use paradox_os.Base.{
  Bool, List, [], false, if◌then◌else◌, none, not, some, true, ℕ, ◌&&◌, ◌==◌, ◌||◌, ◌∷◌,
}
use paradox_os.Base.Int.{ℤ, ◌+ℤ◌, ltb_ℤ, leb_ℤ}
use paradox_os.Vfs.{VfsKind, is_file, is_dir, is_exec, vfs_run}
use paradox_os.Gui.Calculator.{Calc, calc_press}
use paradox_os.Gui.Windows.{
  AppType, app_terminal, app_editor, mark_dirty, z_bring_to_top, find_window_of_type, open_app,
}
use paradox_os.Gui.Input.{BtnRect, DiskFs, Gui, in_rect, set_title, editor_title}

-- The first button that the point is in is pressed.
unfoldable pub press_at : List (BtnRect × List ℕ) → ℤ → ℤ → Calc → Bool × Calc
press_at [] cx cy c = (false, c)
press_at ((r, label) ∷ btns) cx cy c =
    let rest = press_at btns cx cy c in if in_rect cx cy r then (true, calc_press c label) else rest

module _ {D : Type 0} where
  abbrev pub open_type : Gui D → AppType → Gui D
  open_type s t = record s { desk = open_app s.desk s.screen_w s.screen_h t }

  unfoldable pub open_editor_for : Gui D → ℕ → Gui D
  open_editor_for s f =
      if (f == 0) || not (is_file (s.vfs.nodes f).kind)
      then s
      else let t : Gui D = record s { editor_file = f } in
        let title = editor_title s.vfs f in
        elim (find_window_of_type t.desk app_editor) [
          | some existing ↦ record t {
            desk = mark_dirty (z_bring_to_top (set_title t.desk existing title) existing);
          }
          | none ↦
              let u = open_type t app_editor in
              elim (find_window_of_type u.desk app_editor) [
                | none ↦ u
                | some idx ↦ record u { desk = set_title u.desk idx title }
              ]
        ]

  unfoldable pub calculator_handle_click : Gui D → ℤ → ℤ → Bool × Gui D
  calculator_handle_click s cx cy =
      let (hit, c) = press_at s.calc_btns cx cy s.calc in (hit, record s { calc = c })

  unfoldable pub show_terminal : Gui D → Gui D
  show_terminal s = elim (find_window_of_type s.desk app_terminal) [
    | none ↦ open_type s app_terminal
    | some idx ↦ record s { desk = z_bring_to_top s.desk idx }
  ]

  -- The terminal comes up before the program runs.
  unfoldable pub run_exec : Gui D → ℕ → Gui D
  run_exec s n = let t = show_terminal s in record t { vfs = vfs_run t.vfs n t.args_buf }

  abbrev pub open_selected : Gui D → VfsKind → Gui D
  open_selected s VfsKind.dir = record s { files_dir = s.files_selected; files_selected = 0 }
  open_selected s VfsKind.file = open_editor_for s s.files_selected
  open_selected s VfsKind.exec = run_exec s s.files_selected

  -- The rows of the list, from the first on.
  unfoldable pub click_row : List (ℤ × ℕ) → Gui D → ℤ → ℤ → Bool × Gui D
  unfolding ◌+ℤ◌
  click_row [] s cx cy = (false, s)
  click_row ((y, node) ∷ rows) s cx cy =
      let rest = click_row rows s cx cy in
      if (leb_ℤ y cy && ltb_ℤ cy (y +ℤ s.files_row_h))
        && (leb_ℤ s.files_row_x cx && ltb_ℤ cx (s.files_row_x +ℤ s.files_row_w))
      then (
        true,
        if (node == (s.vfs.nodes s.files_dir).parent)
              || (not (node == 0) && is_dir (s.vfs.nodes node).kind)
            then record s { files_dir = node; files_selected = 0 }
            else record s { files_selected = node },
      )
      else rest

  unfoldable pub files_handle_click : Gui D → ℤ → ℤ → Bool × Gui D
  files_handle_click s cx cy =
      if in_rect cx cy s.args_field
      then (true, record s { args_focused = true })
      else let t : Gui D = record s { args_focused = false } in
        let f = t.files_selected in
        if in_rect cx cy t.btn_open
        then (true, if f == 0 then t else open_selected t (t.vfs.nodes f).kind)
        else if in_rect cx cy t.btn_edit
        then (true, if not (f == 0) && is_file (t.vfs.nodes f).kind then open_editor_for t f else t)
        else if in_rect cx cy t.btn_run
        then (true, if not (f == 0) && is_exec (t.vfs.nodes f).kind then run_exec t f else t)
        else click_row t.files_rows t cx cy

  unfoldable pub editor_handle_click : DiskFs D → ℕ → Gui D → ℤ → ℤ → Bool × Gui D
  editor_handle_click fs now s cx cy =
      if in_rect cx cy s.btn_save
      then (
        true,
        if s.editor_file == 0
            then s
            else let (saved, d) = fs.diskfs_save s.disk s.vfs s.editor_file in
              let t : Gui D = record s { disk = d } in
              if saved then record t { last_save_tick = now } else t,
      )
      else (false, s)
