-- ===== src/Syscall.antt =====
-- The system calls, src/kernel/syscall.cpp with src/include/syscall.h. A call that does not return at
-- once says what it does instead: it waits for a line, sleeps, leaves user mode or halts. `memory` is
-- the memory of the caller. Results are 64-bit words, so -1 is 2 ^ 64 - 1.
pub mod Calls
mod Tests
use paradox_os.Base.{
  Bool, List, Option, [], get_or, if◌then◌else◌, leb, length, none, replicate, set, some, suc, zero,
  ℕ, ◌%◌, ◌+◌, ◌-◌, ◌==◌, ◌^◌, ◌||◌, ◌∷◌,
}
use paradox_os.Process.{
  Kernel, terminated, set_state, process_get_current, process_yield, scheduler_remove,
  scheduler_schedule,
}
use paradox_os.Stdin.{Stdin, stdin_read_line}
use paradox_os.Timer.{Timer, sleep_target}
use paradox_os.Vga.{Vga, print_chars, vga_print}

pub record System : Type 0 where
  pub timer : Timer
  pub stdin : Stdin
  pub vga : Vga
  pub usermode_active : Bool

abbrev pub with_kernel : System → Kernel → System
with_kernel s k = record s { timer = record s.timer { kernel = k } }

-- The result of a call, with the characters it copies to the caller's buffer.
pub data Outcome : Type 0 where
  returns : ℕ → List ℕ → System → Outcome
  waits : System → Outcome
  sleeps : ℕ → System → Outcome
  leaves : System → Outcome
  halts : System → Outcome

abbrev pub minus_one : ℕ
minus_one = 2 ^ 64 - 1

-- The `n` bytes at an address.
pub bytes_at : (ℕ → ℕ) → ℕ → ℕ → List ℕ
bytes_at memory a zero = []
bytes_at memory a (suc n) = memory a ∷ bytes_at memory (a + 1) n

pub sys_read : System → ℕ → ℕ → Outcome
sys_read s fd count =
    if fd == 0
    then elim (stdin_read_line s.stdin count) [
      | none ↦ waits s
      | some (line, t) ↦ returns (length line) line (record s { stdin = t })
    ]
    else returns minus_one [] s

pub sys_write : (ℕ → ℕ) → System → ℕ → ℕ → ℕ → Outcome
sys_write memory s fd buf count =
    if (fd == 1) || (fd == 2)
    then returns count [] (record s { vga = print_chars s.vga (bytes_at memory buf count) })
    else returns minus_one [] s

-- `none` if the fuel of `scheduler_remove` runs out.
unfoldable pub sys_exit : ℕ → System → Option Outcome
sys_exit fuel s =
    if s.usermode_active
    then some (leaves s)
    else let current = s.timer.kernel.current_process in
      if current == 0
      then some (returns 0 [] s)
      else elim (scheduler_remove fuel (set_state s.timer.kernel current terminated) current) [
        | none ↦ none
        | some k ↦ some (halts (with_kernel s (scheduler_schedule k).1))
      ]

abbrev pub hello_1 : List ℕ
hello_1 =
    72 ∷ 101 ∷ 108 ∷ 108 ∷ 111 ∷ 32 ∷ 102 ∷ 114 ∷ 111 ∷ 109 ∷ 32 ∷ 114 ∷ 105 ∷ 110 ∷ 103 ∷ 32 ∷ 51
    ∷ 33 ∷ 10 ∷ []

abbrev pub hello_2 : List ℕ
hello_2 =
    84 ∷ 104 ∷ 105 ∷ 115 ∷ 32 ∷ 109 ∷ 101 ∷ 115 ∷ 115 ∷ 97 ∷ 103 ∷ 101 ∷ 32 ∷ 99 ∷ 97 ∷ 109 ∷ 101
    ∷ 32 ∷ 111 ∷ 117 ∷ 116 ∷ 32 ∷ 111 ∷ 102 ∷ 32 ∷ 97 ∷ 110 ∷ 32 ∷ 105 ∷ 110 ∷ 116 ∷ 32 ∷ 48 ∷ 120
    ∷ 56 ∷ 48 ∷ 32 ∷ 115 ∷ 121 ∷ 115 ∷ 99 ∷ 97 ∷ 108 ∷ 108 ∷ 32 ∷ 104 ∷ 97 ∷ 110 ∷ 100 ∷ 108 ∷ 101
    ∷ 114 ∷ 10 ∷ []

abbrev pub hello_3 : List ℕ
hello_3 =
    114 ∷ 117 ∷ 110 ∷ 110 ∷ 105 ∷ 110 ∷ 103 ∷ 32 ∷ 105 ∷ 110 ∷ 32 ∷ 67 ∷ 80 ∷ 76 ∷ 61 ∷ 48 ∷ 44 ∷ 32
    ∷ 99 ∷ 97 ∷ 108 ∷ 108 ∷ 101 ∷ 100 ∷ 32 ∷ 98 ∷ 121 ∷ 32 ∷ 117 ∷ 115 ∷ 101 ∷ 114 ∷ 32 ∷ 99 ∷ 111
    ∷ 100 ∷ 101 ∷ 32 ∷ 105 ∷ 110 ∷ 32 ∷ 67 ∷ 80 ∷ 76 ∷ 61 ∷ 51 ∷ 46 ∷ 10 ∷ []

pub sys_hello : System → Outcome
sys_hello s =
    returns 0 []
      (record s { vga = vga_print (vga_print (vga_print s.vga hello_1) hello_2) hello_3 })

-- Without a process the result is -1 in 32 bits.
pub sys_getpid : System → Outcome
sys_getpid s =
    let current = process_get_current s.timer.kernel in
    returns (if current == 0 then 2 ^ 32 - 1 else (s.timer.kernel.pcbs current).pid) [] s

pub sys_sleep : System → ℕ → Outcome
sys_sleep s milliseconds = sleeps (sleep_target s.timer milliseconds) s

pub sys_yield : System → Outcome
sys_yield s = returns 0 [] (with_kernel s (process_yield s.timer.kernel).1)

-- The functions of the table, called with the first three arguments.
pub data Wrapper : Type 0 where
  read write exit getpid sleep yield hello : Wrapper

unfoldable pub call : ℕ → (ℕ → ℕ) → System → Wrapper → ℕ → ℕ → ℕ → Option Outcome
call fuel memory s read rdi rsi rdx = some (sys_read s (rdi % 2 ^ 32) rdx)
call fuel memory s write rdi rsi rdx = some (sys_write memory s (rdi % 2 ^ 32) rsi rdx)
call fuel memory s exit rdi rsi rdx = sys_exit fuel s
call fuel memory s getpid rdi rsi rdx = some (sys_getpid s)
call fuel memory s sleep rdi rsi rdx = some (sys_sleep s (rdi % 2 ^ 32))
call fuel memory s yield rdi rsi rdx = some (sys_yield s)
call fuel memory s hello rdi rsi rdx = some (sys_hello s)

abbrev pub max_syscalls : ℕ
max_syscalls = 16

unfoldable pub syscall_init : List (Option Wrapper)
syscall_init =
    let t0 : List (Option Wrapper) = replicate max_syscalls none in
    let t1 = set (set (set t0 0 (some read)) 1 (some write)) 4 (some exit) in
    let t2 = set (set t1 7 (some getpid)) 8 (some sleep) in
    set (set t2 9 (some yield)) 10 (some hello)

unfoldable pub syscall_dispatch :
    List (Option Wrapper) → ℕ → (ℕ → ℕ) → System → ℕ → ℕ → ℕ → ℕ → Option Outcome
syscall_dispatch table fuel memory s syscall_num rdi rsi rdx =
    if leb max_syscalls syscall_num
    then some (returns minus_one [] s)
    else elim (get_or table syscall_num none) [
      | none ↦ some (returns minus_one [] s)
      | some f ↦ call fuel memory s f rdi rsi rdx
    ]
