-- ===== src/Gui/Input/Start.antt =====
-- The start of the desktop, `gui_init` of src/kernel/gui.cpp. The boot sector that the files show is left
-- out, and so is the picture of the cursor.
use paradox_os.Base.{length, none, subst, sym, ◌∙◌, ◌≡◌}
use paradox_os.Gui.Windows.Start.{init_windows, init_windows-IsValid}
use paradox_os.Gui.Windows.Table.{IsValid}
use paradox_os.Gui.Input.{Gui}
use paradox_os.Gui.Input.Safe.{GuiValid, Idle-GuiValid}
use paradox_os.Gui.Input.Areas.{gui_present, gui_present-Drawn}

module _ {D : Type 0} where
  abbrev pub gui_reset : Gui D → Gui D
  gui_reset s = record s {
    desk = init_windows s.desk;
    files_dir = s.vfs.g_root;
    files_selected = 0;
    editor_file = 0;
  }

  unfoldable pub gui_init : Gui D → Gui D
  gui_init s = gui_present (gui_reset s)

  -- The start makes a valid desktop.
  pub gui_init-GuiValid :
      (s : Gui D)
      → length s.desk.windows ≡ 8
      → length s.desk.z_order ≡ 8
      → s.drag_idx ≡ none
      → GuiValid (gui_init s)
  unfolding gui_init
  gui_init-GuiValid s size order still =
      let drawn = gui_present-Drawn (gui_reset s) in
      Idle-GuiValid (record {
        desk = subst IsValid (sym drawn.desk) (init_windows-IsValid s.desk size order);
        drag = drawn.drag ∙ still;
      })
