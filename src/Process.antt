-- ===== src/Process.antt =====
-- Processes and the round-robin scheduler, src/kernel/process.cpp with src/include/process.h.
-- A process is a pointer (0 is null), and `pcbs` gives the control block at each pointer; what
-- `kmalloc` returns holds what was there before. A name is the text without its final NUL.
-- The switch of the registers, `switch_context`, is an event: the two processes it is called with.
pub mod Queue
pub mod Remove
pub mod Schedule
pub mod Rotation
pub mod Table
pub mod Exit
pub mod Tests
use paradox_os.Base.{
  Bool, List, Option, [], false, get_or, if◌then◌else◌, none, not, replicate, set, some, suc, take,
  true, zero, ℕ, ◌%◌, ◌&&◌, ◌+◌, ◌-◌, ◌==◌, ◌^◌, ◌||◌, ◌∷◌,
}
use paradox_os.Pmm.{Pmm, pmm_alloc_page, pmm_free_page, page_size}
use paradox_os.Heap.{Heap, kmalloc, kfree}

pub data ProcessState : Type 0 where
  ready running blocked terminated : ProcessState

-- `cpu_context`: the sixteen general registers in their order, of which `rsp` is number 7.
pub record CpuContext : Type 0 where
  pub registers : List ℕ
  pub rip : ℕ
  pub rflags : ℕ
  pub cr3 : ℕ

pub record Process : Type 0 where
  pub pid : ℕ
  pub name : List ℕ
  pub state : ProcessState
  pub context : CpuContext
  pub kernel_stack : ℕ
  pub user_stack : ℕ
  pub priority : ℕ
  pub time_slice : ℕ
  pub next : ℕ

-- The static variables of the file, with the two allocators.
pub record Kernel : Type 0 where
  pub pcbs : ℕ → Process
  pub process_table : List ℕ
  pub next_pid : ℕ
  pub current_process : ℕ
  pub ready_queue_head : ℕ
  pub ready_queue_tail : ℕ
  pub heap : Heap
  pub pmm : Pmm

abbrev pub max_processes : ℕ
max_processes = 64

-- `sizeof(process)`
abbrev pub process_size : ℕ
process_size = 232

-- A write through the pointer `p`.
abbrev pub store : Kernel → ℕ → Process → Kernel
store s p v = record s { pcbs = λ q. if q == p then v else s.pcbs q }

abbrev pub set_state : Kernel → ℕ → ProcessState → Kernel
set_state s p st = store s p (record (s.pcbs p) { state = st })

abbrev pub set_next : Kernel → ℕ → ℕ → Kernel
set_next s p q = store s p (record (s.pcbs p) { next = q })

abbrev pub is_running : ProcessState → Bool
is_running running = true
is_running _ = false

pub process_init : Kernel → Kernel
process_init s =
    let (p, h) = kmalloc s.heap process_size in
    let t : Kernel = record s {
      process_table = replicate max_processes 0;
      heap = h;
      current_process = p;
    } in
    if p == 0
    then t
    else store (record t { process_table = set (replicate max_processes 0) 0 p }) p
        (record (t.pcbs p) {
          pid = 0;
          name = b'i' ∷ b'd' ∷ b'l' ∷ b'e' ∷ [];
          state = running;
          priority = 0;
          time_slice = 0;
          next = 0;
        })

-- The first slot of the table that holds a given pointer.
pub find_slot : List ℕ → ℕ → Option ℕ
find_slot [] p = none
find_slot (q ∷ qs) p =
    let rest = find_slot qs p in
    if q == p then some 0 else elim rest [ none ↦ none | some i ↦ some (i + 1) ]

-- The control block before the stacks are allocated, and when the context is set up.
abbrev pub fresh_pcb : Process → ℕ → List ℕ → Process
fresh_pcb v pid name = record v {
  pid = pid;
  name = take 31 name;
  state = ready;
  priority = 1;
  time_slice = 10;
  next = 0;
}

abbrev pub with_stacks : Process → ℕ → ℕ → ℕ → ℕ → Process
with_stacks v kernel_stack user_stack entry_point cr3 = record v {
  kernel_stack = kernel_stack + page_size;
  user_stack = user_stack + page_size;
  context = record {
    registers = set (replicate 16 0) 7 (user_stack + page_size);
    rip = entry_point;
    rflags = 0x202;
    cr3 = cr3;
  };
}

-- `cr3` is the value of the register.
pub process_create : Kernel → List ℕ → ℕ → ℕ → ℕ × Kernel
process_create s name entry_point cr3 = elim (find_slot s.process_table 0) [
  | none ↦ (0, s)
  | some slot ↦
      let (proc, h) = kmalloc s.heap process_size in
      if proc == 0
      then (0, record s { heap = h })
      else let pcb = fresh_pcb (s.pcbs proc) s.next_pid name in
        let s' : Kernel = record s { heap = h; next_pid = (s.next_pid + 1) % 2 ^ 32 } in
        let (kernel_stack, pmm1) = pmm_alloc_page s'.pmm in
        if kernel_stack == 0
        then (
          0,
          record (store s' proc (record pcb { kernel_stack = kernel_stack })) {
            heap = kfree h proc;
            pmm = pmm1;
          },
        )
        else let (user_stack, pmm2) = pmm_alloc_page pmm1 in
          if user_stack == 0
          then (
            0,
            record (store s' proc
                (record pcb { kernel_stack = kernel_stack + page_size; user_stack = user_stack })) {
                  heap = kfree h proc;
                  pmm = pmm_free_page pmm2 kernel_stack;
                },
          )
          else (
            proc,
            record (store s' proc (with_stacks pcb kernel_stack user_stack entry_point cr3)) {
              process_table = set s.process_table slot proc;
              pmm = pmm2;
            },
          )
]

-- `if (stack) pmm_free_page(stack - PAGE_SIZE)`
abbrev pub free_stack : Pmm → ℕ → Pmm
free_stack m stack = if stack == 0 then m else pmm_free_page m (stack - page_size)

pub process_destroy : Kernel → ℕ → Kernel
process_destroy s proc =
    if proc == 0
    then s
    else let table : List ℕ = elim (find_slot s.process_table proc) [
      | none ↦ s.process_table
      | some i ↦ set s.process_table i 0
    ] in
      let v = s.pcbs proc in
      record s {
        process_table = table;
        pmm = free_stack (free_stack s.pmm v.kernel_stack) v.user_stack;
        heap = kfree s.heap proc;
      }

pub process_get_current : Kernel → ℕ
process_get_current s = s.current_process

pub by_pid : (ℕ → Process) → List ℕ → ℕ → ℕ
by_pid pcbs [] pid = 0
by_pid pcbs (p ∷ ps) pid = if not (p == 0) && ((pcbs p).pid == pid) then p else by_pid pcbs ps pid

pub process_get_by_pid : Kernel → ℕ → ℕ
unfolding by_pid
process_get_by_pid s pid = by_pid s.pcbs s.process_table pid

pub scheduler_add : Kernel → ℕ → Kernel
scheduler_add s proc =
    if proc == 0
    then s
    else let t = store s proc (record (s.pcbs proc) { state = ready; next = 0 }) in
      if t.ready_queue_head == 0
      then record t { ready_queue_head = proc; ready_queue_tail = proc }
      else record (set_next t t.ready_queue_tail proc) { ready_queue_tail = proc }

-- The `while` loop of `scheduler_remove`, on fuel; `none` means that the fuel ran out.
pub remove_loop : ℕ → Kernel → ℕ → ℕ → Option Kernel
remove_loop zero s proc current = none
remove_loop (suc fuel) s proc current =
    let next = (s.pcbs current).next in
    let rest = remove_loop fuel s proc next in
    if next == 0
    then some s
    else if next == proc
    then (let t = set_next s current (s.pcbs proc).next in
        some (if t.ready_queue_tail == proc then record t { ready_queue_tail = current } else t))
    else rest

pub scheduler_remove : ℕ → Kernel → ℕ → Option Kernel
scheduler_remove fuel s proc =
    if proc == 0 || (s.ready_queue_head == 0)
    then some s
    else if s.ready_queue_head == proc
    then (let t : Kernel = record s { ready_queue_head = (s.pcbs proc).next } in
        some (if t.ready_queue_tail == proc then record t { ready_queue_tail = 0 } else t))
    else remove_loop fuel s proc s.ready_queue_head

pub scheduler_next : Kernel → ℕ × Kernel
scheduler_next s =
    if s.ready_queue_head == 0
    then (get_or s.process_table 0 0, s)
    else let next = s.ready_queue_head in
      let t : Kernel = record s { ready_queue_head = (s.pcbs next).next } in
      (next, if t.ready_queue_head == 0 then record t { ready_queue_tail = 0 } else t)

-- The pair is what `switch_context` is called with.
pub scheduler_schedule : Kernel → Option (ℕ × ℕ) × Kernel
scheduler_schedule s =
    let old = s.current_process in
    let s1 =
      if not (old == 0) && is_running (s.pcbs old).state
      then scheduler_add (set_state s old ready) old
      else s in
    let (next, s2) = scheduler_next s1 in
    let new = if next == 0 then get_or s2.process_table 0 0 else next in
    if new == old then (none, s2) else (
      if old == 0 then none else some (old, new),
      record (set_state s2 new running) { current_process = new },
    )

pub process_yield : Kernel → Option (ℕ × ℕ) × Kernel
unfolding scheduler_schedule
process_yield s = scheduler_schedule s
