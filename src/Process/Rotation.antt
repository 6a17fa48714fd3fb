-- ===== src/Process/Rotation.antt =====
-- Repeated calls of `scheduler_schedule`, as the timer makes them: round robin.
use mathlib.Core.List.{append_assoc}
use mathlib.Core.Path.{subst}
use paradox_os.Base.{List, [], length, suc, zero, ℕ, ◌++◌, ◌∷◌}
use paradox_os.Process.{Kernel, scheduler_schedule}
use paradox_os.Process.Schedule.{IsScheduled, schedule_switches}

-- `n` calls in a row
unfoldable pub schedules : ℕ → Kernel → Kernel
schedules zero s = s
schedules (suc n) s = schedules n (scheduler_schedule s).1

-- Every process gets its turn: a process behind `n` others in the queue is the running one after
-- `n + 1` calls of `scheduler_schedule`, and the processes before and after it wait in the order
-- of their turns, the one that ran before them first among those that had theirs.
pub schedules-turn :
    (before : List ℕ) {s : Kernel} {c p : ℕ} (after : List ℕ)
    → IsScheduled s c (before ++ (p ∷ after))
    → IsScheduled (schedules (suc (length before)) s) p (after ++ (c ∷ before))
unfolding schedules
schedules-turn [] after v = (schedule_switches v).1
schedules-turn (x ∷ before) {s} {c} {p} after v =
    let step = (schedule_switches v).1 in
    let shifted =
      subst (IsScheduled (scheduler_schedule s).1 x) (append_assoc before (p ∷ after) (c ∷ []))
        step in
    let turn = schedules-turn before (after ++ (c ∷ [])) shifted in
    subst (IsScheduled (schedules (suc (suc (length before))) s) p)
      (append_assoc after (c ∷ []) (x ∷ before)) turn
