-- ===== src/Syscall/Calls.antt =====
-- The exit call, and the numbers that are no calls.
use paradox_os.Base.{
  Bool, Bool-cases, List, Option, [], arith, false, get_or, if◌then◌else◌, inl, inr, is_some, leb,
  leb→lt, length, none, not, refl, some, true, ℕ, ◌+◌, ◌<◌, ◌==◌, ◌||◌, ◌∷◌, ◌≡◌,
}
use paradox_os.Base.Bits.{all_below, all_below_lem}
use paradox_os.Process.{terminated, set_state, scheduler_schedule}
use paradox_os.Process.Schedule.{IsScheduled}
use paradox_os.Process.Exit.{exit_switches}
use paradox_os.Syscall.{
  System, returns, halts, with_kernel, sys_exit, call, syscall_init, syscall_dispatch, minus_one,
  max_syscalls,
}

-- The exit call of the running process, outside user mode and with other processes waiting, halts in
-- a state in which the first of them runs and the others wait as before, while the process itself is
-- terminated and in no queue; fuel for the length of the queue is enough.
pub syscall_dispatch-exit :
    (fuel : ℕ) (memory : ℕ → ℕ) (s : System) (x : ℕ) (xs : List ℕ) (rdi rsi rdx : ℕ)
    → s.usermode_active ≡ false
    → IsScheduled s.timer.kernel s.timer.kernel.current_process (x ∷ xs)
    → length xs + 1 < fuel
    → (t : System) × (syscall_dispatch syscall_init fuel memory s 4 rdi rsi rdx ≡ some (halts t))
      × IsScheduled t.timer.kernel x xs
      × ((t.timer.kernel.pcbs s.timer.kernel.current_process).state ≡ terminated)
unfolding syscall_dispatch syscall_init call sys_exit
syscall_dispatch-exit fuel memory s x xs rdi rsi rdx kernel_mode v few =
    let e = exit_switches fuel v (omega arith) in
    let some_current : (s.timer.kernel.current_process == 0) ≡ false = ground (arith, v.not_null) in
    (
      with_kernel s
          (scheduler_schedule
            (set_state s.timer.kernel s.timer.kernel.current_process terminated)).1,
      simp (kernel_mode, some_current, e.0) refl,
      e.1,
      e.2,
    )

-- The numbers of the calls that are there.
abbrev pub served : ℕ → Bool
served n =
    (n == 0) || ((n == 1) || ((n == 4) || ((n == 7) || ((n == 8) || ((n == 9) || (n == 10))))))

abbrev entry_fits : ℕ → Bool
entry_fits n =
    if served n
    then is_some (get_or syscall_init n none)
    else not (is_some (get_or syscall_init n none))

entries : all_below 16 entry_fits ≡ true
unfolding all_below syscall_init
entries = refl

none_there {ℓ} : {A : Type ℓ} (o : Option A) → not (is_some o) ≡ true → o ≡ none
none_there none h = refl
none_there (some a) h = absurd (ground (arith, h))

-- With the table of `syscall_init`, any other number than those of the seven calls returns -1 and
-- changes nothing, whatever the arguments are.
pub syscall_dispatch-invalid :
    (fuel : ℕ) (memory : ℕ → ℕ) (s : System) (syscall_num rdi rsi rdx : ℕ)
    → served syscall_num ≡ false
    → syscall_dispatch syscall_init fuel memory s syscall_num rdi rsi rdx
      ≡ some (returns minus_one [] s)
unfolding syscall_dispatch
syscall_dispatch-invalid fuel memory s syscall_num rdi rsi rdx absent =
    elim (Bool-cases (leb max_syscalls syscall_num)) [
      | inl big ↦ rw big refl
      | inr small ↦
          let fits = all_below_lem entry_fits (leb→lt _ _ small) entries in
          let empty : get_or syscall_init syscall_num none ≡ none =
            none_there (get_or syscall_init syscall_num none) (rw absent at fits) in
          rw (small, empty) refl
    ]
