-- ===== src/Gui/Input/Safe.antt =====
-- The windows stay in order whatever is clicked.
use paradox_os.Base.{
  Bool-cases, List, Option, Option-cases, inl, inr, none, not, refl, some, subst, sym, true, ℕ,
  ◌==◌, ◌||◌, ◌≡◌,
}
use paradox_os.Vfs.{VfsKind, is_file}
use paradox_os.Gui.Windows.{
  AppType, app_terminal, app_editor, Window, Desk, window_at, find_window_of_type, open_app,
}
use paradox_os.Gui.Windows.Table.{IsValid, z_bring_to_top-IsValid, mark_dirty-IsValid}
use paradox_os.Gui.Windows.Opening.{open_app-IsValid}
use paradox_os.Gui.Windows.Entries.{set_window-IsValid}
use paradox_os.Gui.Input.{Gui, set_title, editor_title}
use paradox_os.Gui.Input.Clicks.{open_type, open_editor_for, show_terminal, run_exec, open_selected}

-- What is dragged is nothing, or one of the windows in use.
abbrev pub DragUsed : List Window → Option ℕ → Type 0
DragUsed windows none = Unit
DragUsed windows (some i) = (window_at windows i).used ≡ true

-- The windows are in order, and what is dragged is one of them.
pub record GuiValid {D : Type 0} (s : Gui D) : Type 0 where
  pub desk : IsValid s.desk
  pub drag : DragUsed s.desk.windows s.drag_idx

-- The windows are in order, and nothing is dragged.
pub record Idle {D : Type 0} (s : Gui D) : Type 0 where
  pub desk : IsValid s.desk
  pub drag : s.drag_idx ≡ none

pub Idle-GuiValid : {D : Type 0} {s : Gui D} → Idle s → GuiValid s
Idle-GuiValid {s = s} v = record {
  desk = v.desk;
  drag = subst (λ o. DragUsed s.desk.windows o) (sym v.drag) tt;
}

set_title-IsValid :
    (s : Desk) (idx : ℕ) (title : List ℕ) → IsValid s → IsValid (set_title s idx title)
set_title-IsValid s idx title v =
    set_window-IsValid s idx (record (window_at s.windows idx) { title = title }) refl refl v

module _ {D : Type 0} where
  pub open_type-Idle : (s : Gui D) (t : AppType) → Idle s → Idle (open_type s t)
  open_type-Idle s t v = record {
    desk = open_app-IsValid s.screen_w s.screen_h t v.desk;
    drag = v.drag;
  }

  pub open_editor_for-Idle : (s : Gui D) (f : ℕ) → Idle s → Idle (open_editor_for s f)
  unfolding open_editor_for
  open_editor_for-Idle s f v = elim (Bool-cases ((f == 0) || not (is_file (s.vfs.nodes f).kind))) [
    | inl e ↦ rw e v
    | inr e ↦ elim (Option-cases (find_window_of_type s.desk app_editor)) [
      | inr (idx, at) ↦
          rw (e, at, open_editor_for)
            (record {
              desk = mark_dirty-IsValid (
                  z_bring_to_top-IsValid idx
                    (set_title-IsValid s.desk idx (editor_title s.vfs f) v.desk));
              drag = v.drag;
            })
      | inl absent ↦
          let opened = open_app-IsValid s.screen_w s.screen_h app_editor v.desk in
          elim (Option-cases
            (find_window_of_type (open_app s.desk s.screen_w s.screen_h app_editor) app_editor)) [
              | inl still ↦
                  rw (e, absent, still, open_editor_for) (record { desk = opened; drag = v.drag })
              | inr (idx, at) ↦
                  rw (e, absent, at, open_editor_for)
                    (record {
                      desk =
                          set_title-IsValid (open_app s.desk s.screen_w s.screen_h app_editor) idx
                            (editor_title s.vfs f) opened;
                      drag = v.drag;
                    })
            ]
    ]
  ]

  show_terminal-Idle : (s : Gui D) → Idle s → Idle (show_terminal s)
  unfolding show_terminal
  show_terminal-Idle s v = elim (Option-cases (find_window_of_type s.desk app_terminal)) [
    | inl absent ↦ rw (absent, show_terminal) (open_type-Idle s app_terminal v)
    | inr (idx, at) ↦
        rw (at, show_terminal) (record { desk = z_bring_to_top-IsValid idx v.desk; drag = v.drag })
  ]

  pub run_exec-Idle : (s : Gui D) (n : ℕ) → Idle s → Idle (run_exec s n)
  unfolding run_exec
  run_exec-Idle s n v = let t = show_terminal-Idle s v in record { desk = t.desk; drag = t.drag }

  pub open_selected-Idle : (s : Gui D) (k : VfsKind) → Idle s → Idle (open_selected s k)
  open_selected-Idle s VfsKind.dir v = record { desk = v.desk; drag = v.drag }
  open_selected-Idle s VfsKind.file v = open_editor_for-Idle s s.files_selected v
  open_selected-Idle s VfsKind.exec v = run_exec-Idle s s.files_selected v
