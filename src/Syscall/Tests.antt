-- ===== src/Syscall/Tests.antt =====
-- Concrete system calls.
use paradox_os.Base.{[], arith, false, refl, some, true, ◌∷◌, ◌≡◌}
use paradox_os.Process.{terminated}
use paradox_os.Process.Schedule.{IsScheduled}
use paradox_os.Process.Tests.{four, four-IsScheduled}
use paradox_os.Syscall.{System, halts, syscall_init, syscall_dispatch}
use paradox_os.Syscall.Calls.{syscall_dispatch-exit}

abbrev system : System
system = record {
  timer = record {
    timer_ticks = 0;
    timer_frequency = 100;
    channel = [];
    pic = record { mask1 = 255; mask2 = 255; out = [] };
    kernel = four;
  };
  stdin = record { line = []; ready = false; echo = [] };
  vga = record {
    vga_buffer = λ j. 0;
    vga_row = 0;
    vga_col = 0;
    vga_color = 15;
    redirect = true;
    gui = [];
  };
  usermode_active = false;
}

syscall_dispatch-exit_example :
    (t : System) × (syscall_dispatch syscall_init 9 (λ a. 0) system 4 0 0 0 ≡ some (halts t))
    × IsScheduled t.timer.kernel 200 (300 ∷ 400 ∷ [])
    × ((t.timer.kernel.pcbs system.timer.kernel.current_process).state ≡ terminated)
syscall_dispatch-exit_example =
    syscall_dispatch-exit 9 (λ a. 0) system 200 (300 ∷ 400 ∷ []) 0 0 0 refl four-IsScheduled
      (omega arith)
