-- ===== src/Process/Tests.antt =====
-- Runs of the scheduler and of the process table, and their theorems at concrete states.
use paradox_os.Base.{
  [], arith, get_or, if◌then◌else◌, refl, set, some, true, ℕ, ◌<◌, ◌==◌, ◌∷◌, ◌≡◌, ◌≢◌,
}
use paradox_os.Base.Bits.{test_bit, set_bit}
use paradox_os.Pmm.{Pmm, bitmap_test, pmm_alloc_page, find_free, take_page}
use paradox_os.Pmm.Count.{count}
use paradox_os.Pmm.Bitmap
use paradox_os.Heap.{Heap, kmalloc, first_fit, carve}
use paradox_os.Heap.Tiles
use paradox_os.Process.{
  Process, ProcessState, ready, running, CpuContext, Kernel, scheduler_remove, process_create,
  find_slot,
}
use paradox_os.Process.Queue.{IsQueue}
use paradox_os.Process.Remove.{erase, scheduler_remove-IsQueue}
use paradox_os.Process.Schedule.{IsScheduled}
use paradox_os.Process.Rotation.{schedules, schedules-turn}
use paradox_os.Process.Table.{process_create-some}

abbrev context : CpuContext
context = record { registers = []; rip = 0; rflags = 0; cr3 = 0 }

abbrev pcb : ℕ → ProcessState → ℕ → Process
pcb n st next = record {
  pid = n;
  name = [];
  state = st;
  context = context;
  kernel_stack = 0;
  user_stack = 0;
  priority = 1;
  time_slice = 10;
  next = next;
}

abbrev no_memory : Pmm
no_memory = record {
  page_bitmap = 255 ∷ [];
  bitmap_base = 0;
  total_pages = 8;
  used_pages = 8;
  bitmap_size = 1;
  total_memory = 0;
  usable_memory = 0;
}

abbrev some_heap : Heap
some_heap = record {
  heap_start = record { addr = 4096; size = 1000; is_free = true } ∷ [];
  heap_size = 1017;
  bytes = λ a. 0;
}

-- The process at 100 runs; those at 200, 300 and 400 wait.
abbrev pub four : Kernel
four = record {
  pcbs = λ p.
      if p == 100
      then pcb 0 running 0
      else if p == 200
      then pcb 1 ready 300
      else if p == 300
      then pcb 2 ready 400
      else pcb 3 ready 0;
  process_table = 100 ∷ 200 ∷ 300 ∷ 400 ∷ 0 ∷ [];
  next_pid = 4;
  current_process = 100;
  ready_queue_head = 200;
  ready_queue_tail = 400;
  heap = some_heap;
  pmm = no_memory;
}

four-IsQueue : IsQueue four (200 ∷ 300 ∷ 400 ∷ [])
four-IsQueue = record {
  chain = (refl, (refl, (refl, refl)));
  tail = refl;
  distinct = (omega arith, refl, (omega arith, refl, (omega arith, refl, tt)));
}

pub four-IsScheduled : IsScheduled four 100 (200 ∷ 300 ∷ 400 ∷ [])
four-IsScheduled = record {
  queue = four-IsQueue;
  current = refl;
  not_null = omega arith;
  apart = refl;
  runs = refl;
}

-- The process at 200 runs alone; the idle process is at 100.
abbrev alone : Kernel
alone = record four {
  pcbs = λ p. pcb 1 running 0;
  current_process = 200;
  ready_queue_head = 0;
  ready_queue_tail = 0;
}

alone-IsScheduled : IsScheduled alone 200 []
alone-IsScheduled = record {
  queue = record { chain = refl; tail = refl; distinct = tt };
  current = refl;
  not_null = omega arith;
  apart = refl;
  runs = refl;
}

scheduler_remove-IsQueue_example :
    (t : Kernel) × (scheduler_remove 9 four 300 ≡ some t)
    × IsQueue t (erase 300 (200 ∷ 300 ∷ 400 ∷ []))
scheduler_remove-IsQueue_example =
    scheduler_remove-IsQueue 9 300 four-IsQueue (omega arith) (omega arith)

schedules-turn_example : IsScheduled (schedules 2 four) 300 (400 ∷ 100 ∷ 200 ∷ [])
schedules-turn_example = schedules-turn (200 ∷ []) (400 ∷ []) four-IsScheduled

no_memory-IsValid : Bitmap.IsValid no_memory
unfolding count bitmap_test test_bit
no_memory-IsValid = record {
  bytes = omega arith;
  covers = omega arith;
  small = omega arith;
  counted = refl;
}

some_heap-IsValid : Tiles.IsValid 4096 some_heap
some_heap-IsValid = record {
  tiles = (refl, refl);
  coalesced = (refl, tt);
  not_null = omega arith;
  bounded = omega arith;
}

null_example : (process_create four (b'a' ∷ []) 7 0).0 ≡ 0
unfolding process_create find_slot kmalloc first_fit carve pmm_alloc_page find_free bitmap_test
    test_bit
null_example = refl

-- The same with memory for the stacks.
abbrev with_memory : Kernel
with_memory = record four { pmm = record no_memory { page_bitmap = 1 ∷ []; used_pages = 1 } }

some_example : (process_create with_memory (b'a' ∷ []) 7 0).0 ≢ 0
unfolding process_create find_slot kmalloc first_fit carve pmm_alloc_page find_free take_page
    bitmap_test test_bit set_bit
some_example = omega arith

process_create-some_example :
    let r = process_create with_memory (b'a' ∷ []) 7 0 in
    (slot : ℕ) × (slot < 5)
    × (get_or with_memory.process_table slot 0 ≡ 0)
    × (r.1.process_table ≡ set with_memory.process_table slot r.0)
    × ((r.1.pcbs r.0).pid ≡ 4)
    × ((r.1.pcbs r.0).state ≡ ready)
    × ((q : ℕ) → q ≢ r.0 → r.1.pcbs q ≡ with_memory.pcbs q)
process_create-some_example = process_create-some with_memory (b'a' ∷ []) 7 0 some_example
