-- ===== src/Gui/Input/Clicked.antt =====
-- The windows stay in order whatever is clicked in them.
use paradox_os.Base.{Bool-cases, List, [], false, inl, inr, not, ℕ, ◌&&◌, ◌==◌, ◌||◌, ◌∷◌}
use paradox_os.Base.Int.{ℤ, ◌+ℤ◌, ltb_ℤ, leb_ℤ}
use paradox_os.Vfs.{is_file, is_dir, is_exec}
use paradox_os.Gui.Windows.{
  AppType, app_terminal, app_files, app_monitor, app_about, app_editor, app_calculator,
}
use paradox_os.Gui.Input.{DiskFs, Gui, in_rect}
use paradox_os.Gui.Input.Clicks.{
  calculator_handle_click, click_row, files_handle_click, editor_handle_click,
}
use paradox_os.Gui.Input.Press.{click_content}
use paradox_os.Gui.Input.Safe.{Idle, open_editor_for-Idle, run_exec-Idle, open_selected-Idle}

module _ {D : Type 0} where
  click_row-Idle :
      (rows : List (ℤ × ℕ)) (s : Gui D) (cx cy : ℤ) → Idle s → Idle (click_row rows s cx cy).1
  unfolding click_row
  click_row-Idle [] s cx cy v = v
  click_row-Idle ((y, node) ∷ rows) s cx cy v =
      elim (Bool-cases (
        (leb_ℤ y cy && ltb_ℤ cy (y +ℤ s.files_row_h))
        && (leb_ℤ s.files_row_x cx && ltb_ℤ cx (s.files_row_x +ℤ s.files_row_w)))) [
          | inr miss ↦ rw miss (click_row-Idle rows s cx cy v)
          | inl hit ↦
              elim (Bool-cases (
                (node == (s.vfs.nodes s.files_dir).parent)
                || (not (node == 0) && is_dir (s.vfs.nodes node).kind))) [
                  | inl down ↦ rw (hit, down) (record { desk = v.desk; drag = v.drag })
                  | inr pick ↦ rw (hit, pick) (record { desk = v.desk; drag = v.drag })
                ]
        ]

  files_handle_click-Idle : (s : Gui D) (cx cy : ℤ) → Idle s → Idle (files_handle_click s cx cy).1
  unfolding files_handle_click
  files_handle_click-Idle s cx cy v =
      let t : Gui D = record s { args_focused = false } in
      let tv : Idle t = record { desk = v.desk; drag = v.drag } in
      let f = s.files_selected in
      elim (Bool-cases (in_rect cx cy s.args_field)) [
        | inl e ↦ rw e (record { desk = v.desk; drag = v.drag })
        | inr e ↦ elim (Bool-cases (in_rect cx cy s.btn_open)) [
          | inl e2 ↦ elim (Bool-cases (f == 0)) [
            | inl none_selected ↦ rw (e, e2, none_selected) tv
            | inr some_selected ↦
                rw (e, e2, some_selected) (open_selected-Idle t (s.vfs.nodes f).kind tv)
          ]
          | inr e2 ↦ elim (Bool-cases (in_rect cx cy s.btn_edit)) [
            | inl e3 ↦ elim (Bool-cases (not (f == 0) && is_file (s.vfs.nodes f).kind)) [
              | inl edits ↦ rw (e, e2, e3, edits) (open_editor_for-Idle t f tv)
              | inr other ↦ rw (e, e2, e3, other) tv
            ]
            | inr e3 ↦ elim (Bool-cases (in_rect cx cy s.btn_run)) [
              | inl e4 ↦ elim (Bool-cases (not (f == 0) && is_exec (s.vfs.nodes f).kind)) [
                | inl runs ↦ rw (e, e2, e3, e4, runs) (run_exec-Idle t f tv)
                | inr other ↦ rw (e, e2, e3, e4, other) tv
              ]
              | inr e4 ↦ rw (e, e2, e3, e4) (click_row-Idle s.files_rows t cx cy tv)
            ]
          ]
        ]
      ]

  editor_handle_click-Idle :
      (fs : DiskFs D) (now : ℕ) (s : Gui D) (cx cy : ℤ)
      → Idle s
      → Idle (editor_handle_click fs now s cx cy).1
  unfolding editor_handle_click
  editor_handle_click-Idle fs now s cx cy v = elim (Bool-cases (in_rect cx cy s.btn_save)) [
    | inr e ↦ rw e v
    | inl e ↦ elim (Bool-cases (s.editor_file == 0)) [
      | inl e2 ↦ rw (e, e2) v
      | inr e2 ↦ elim (Bool-cases (fs.diskfs_save s.disk s.vfs s.editor_file).0) [
        | inl e3 ↦ rw (e, e2, e3) (record { desk = v.desk; drag = v.drag })
        | inr e3 ↦ rw (e, e2, e3) (record { desk = v.desk; drag = v.drag })
      ]
    ]
  ]

  pub click_content-Idle :
      (fs : DiskFs D) (now : ℕ) (app : AppType) (s : Gui D) (cx cy : ℤ)
      → Idle s
      → Idle (click_content fs now app s cx cy)
  unfolding calculator_handle_click
  click_content-Idle fs now app_terminal s cx cy v = v
  click_content-Idle fs now app_files s cx cy v = files_handle_click-Idle s cx cy v
  click_content-Idle fs now app_monitor s cx cy v = v
  click_content-Idle fs now app_about s cx cy v = v
  click_content-Idle fs now app_editor s cx cy v = editor_handle_click-Idle fs now s cx cy v
  click_content-Idle fs now app_calculator s cx cy v = record { desk = v.desk; drag = v.drag }
