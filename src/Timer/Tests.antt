-- ===== src/Timer/Tests.antt =====
-- Concrete ticks.
use paradox_os.Base.{[], arith, ◌+◌, ◌-◌, ◌/◌, ◌≡◌}
use paradox_os.Process.{Kernel, Process, ready}
use paradox_os.Process.Rotation.{schedules}
use paradox_os.Heap.{no_heap}
use paradox_os.Pmm.{boot_state}
use paradox_os.Timer.{Timer}
use paradox_os.Timer.Ticks.{ticks, ticks-schedules}

abbrev nobody : Process
nobody = record {
  pid = 0;
  name = [];
  state = ready;
  context = record { registers = []; rip = 0; rflags = 0; cr3 = 0 };
  kernel_stack = 0;
  user_stack = 0;
  priority = 0;
  time_slice = 0;
  next = 0;
}

abbrev kernel : Kernel
kernel = record {
  pcbs = λ p. nobody;
  process_table = [];
  next_pid = 1;
  current_process = 0;
  ready_queue_head = 0;
  ready_queue_tail = 0;
  heap = no_heap (λ a. 0);
  pmm = boot_state;
}

abbrev timer : Timer
timer = record {
  timer_ticks = 5;
  timer_frequency = 100;
  channel = [];
  pic = record { mask1 = 255; mask2 = 255; out = [] };
  kernel = kernel;
}

ticks-schedules_example :
    ((ticks 20 timer).timer_ticks ≡ timer.timer_ticks + 20)
    × ((ticks 20 timer).kernel
        ≡ schedules ((timer.timer_ticks + 20) / 10 - timer.timer_ticks / 10) timer.kernel)
ticks-schedules_example = ticks-schedules 20 timer (omega arith)
