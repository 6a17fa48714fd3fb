-- ===== src/Gui/Input/Tests.antt =====
-- A desktop with an open editor.
use paradox_os.Base.{
  [], arith, false, for_range, get_or, none, refl, replicate, some, true, ℕ, ◌<◌, ◌∷◌, ◌≡◌, ◌⊎◌,
}
use paradox_os.Base.Int.{pos, negsuc, ◌+ℤ◌}
use paradox_os.Mouse.{MouseEvent}
use paradox_os.Vfs.{dir}
use paradox_os.Gui.Windows.{Window, window_at, no_window, app_editor}
use paradox_os.Gui.Input.{BtnRect, DiskFs, Gui, Desk}
use paradox_os.Gui.Input.Areas.{body_rect, gui_present}
use paradox_os.Gui.Input.Tick.{gui_tick, update_drag}
use paradox_os.Gui.Input.Safe.{GuiValid}
use paradox_os.Gui.Input.Press.{window_under}
use paradox_os.Gui.Input.Pressed.{covers, window_under_lem}
use paradox_os.Gui.Input.Start.{gui_init, gui_init-GuiValid}
use paradox_os.Gui.Input.Ticked.{Reachable, gui_tick-GuiValid, update_drag-Reachable}

abbrev nowhere : BtnRect
nowhere = record { x = pos 0; y = pos 0; w = pos 0; h = pos 0 }

abbrev off : Gui Unit
off = record {
  desk = record {
    windows = replicate 8 no_window;
    z_order = replicate 8 0;
    z_count = 0;
    next_cascade = 0;
    term = record { cells = λ i j. 32; cur_row = 0; cur_col = 0; dirty = false };
  };
  screen_w = 1024;
  screen_h = 768;
  drag_idx = none;
  drag_off_x = pos 0;
  drag_off_y = pos 0;
  calc = record { display = 48 ∷ []; acc = pos 0; op = 0; fresh = true };
  calc_btns = [];
  vfs = record {
    nodes = λ q. record {
      name = b'/' ∷ [];
      kind = dir;
      parent = 0;
      first_child = 0;
      next = 0;
      content = 0;
      buffer = λ i. 0;
      len = 0;
      cap = 0;
      exec_fn = 0;
      description = [];
    };
    g_root = 100;
    heap = record { heap_start = []; heap_size = 0; bytes = λ a. 0 };
    calls = [];
  };
  disk = tt;
  files_dir = 0;
  files_selected = 0;
  editor_file = 0;
  last_save_tick = 0;
  btn_open = nowhere;
  btn_edit = nowhere;
  btn_run = nowhere;
  btn_save = nowhere;
  files_rows = [];
  files_row_x = pos 0;
  files_row_w = pos 0;
  files_row_h = pos 20;
  args_buf = [];
  args_focused = false;
  args_field = nowhere;
  last_x = negsuc 0;
  last_y = negsuc 0;
  last_paint_tick = 0;
}

abbrev started : Gui Unit
started = gui_init off

started-GuiValid : GuiValid started
started-GuiValid = gui_init-GuiValid off refl refl refl

abbrev disk_full : DiskFs Unit
disk_full = record { diskfs_save = λ d v f. (false, d) }

abbrev press : MouseEvent
press = record { x = pos 40; y = pos 50; buttons = 1; pressed = 1; released = 0 }

gui_tick-GuiValid_example : GuiValid (gui_tick disk_full 7 started press)
gui_tick-GuiValid_example = gui_tick-GuiValid disk_full 7 started press started-GuiValid

-- A window that is dragged to the right edge
abbrev shown : Window
shown = record {
  used = true;
  x = pos 160;
  y = pos 60;
  w = pos 720;
  h = pos 520;
  app = app_editor;
  title = [];
}

abbrev one_window : Desk
one_window = record off.desk { windows = shown ∷ replicate 7 no_window; z_count = 1 }

abbrev dragging : Gui Unit
dragging = record started {
  desk = one_window;
  drag_idx = some 0;
  drag_off_x = negsuc 4;
  screen_w = 1024;
  screen_h = 768;
}

-- Drawing the window notes where its button is.
save_noted :
    (gui_present dragging).btn_save ≡ record { x = pos 168; y = pos 92; w = pos 60; h = pos 22 }
unfolding gui_present for_range body_rect ◌+ℤ◌
save_noted = refl

abbrev far : MouseEvent
far = record { x = pos 1020; y = pos 5; buttons = 1; pressed = 0; released = 0 }

update_drag-Reachable_example :
    Reachable dragging.screen_w dragging.screen_h
      (window_at (update_drag dragging far).1.desk.windows 0)
update_drag-Reachable_example =
    update_drag-Reachable dragging 0 far refl (omega arith) refl (omega arith) (omega arith)
      (omega arith)

-- A point in the window, which is the only one painted
window_under_lem_example :
    ((window_under one_window 1 (pos 200) (pos 100) ≡ none)
      × ((j : ℕ) → j < 1 → covers one_window j (pos 200) (pos 100) ≡ false))
    ⊎ ((i : ℕ) × (i < 1)
        × (window_under one_window 1 (pos 200) (pos 100) ≡ some (get_or one_window.z_order i 0))
        × (covers one_window i (pos 200) (pos 100) ≡ true)
        × ((j : ℕ) → i < j → j < 1 → covers one_window j (pos 200) (pos 100) ≡ false))
window_under_lem_example = window_under_lem one_window 1 (pos 200) (pos 100)
