-- ===== src/Process/Schedule.antt =====
-- One call of `scheduler_schedule`.
use paradox_os.Base.{
  ==_refl, List, Option, [], ap, arith, false, get_or, if◌then◌else◌, none, not, refl, some, ℕ,
  ◌&&◌, ◌++◌, ◌==◌, ◌∙◌, ◌∷◌, ◌≡◌, ◌≢◌,
}
use paradox_os.Process.{
  ProcessState, ready, running, Kernel, set_state, is_running, scheduler_add, scheduler_next,
  scheduler_schedule,
}
use paradox_os.Process.Queue.{
  has, IsQueue, Chain-frame, scheduler_add-IsQueue, scheduler_next-cons, scheduler_next-nil,
  state-scheduler_add, current-scheduler_add, table-scheduler_add,
}

-- The process `c` runs, and the processes `xs` wait, in this order; `c` does not wait as well.
pub record IsScheduled (s : Kernel) (c : ℕ) (xs : List ℕ) : Type 0 where
  pub queue : IsQueue s xs
  pub current : s.current_process ≡ c
  pub not_null : c ≢ 0
  pub apart : has c xs ≡ false
  pub runs : (s.pcbs c).state ≡ running

pub set_state-IsQueue :
    {s : Kernel} {xs : List ℕ} (p : ℕ) (st : ProcessState)
    → IsQueue s xs
    → IsQueue (set_state s p st) xs
set_state-IsQueue {s} {xs} p st v = record {
  chain =
      Chain-frame s.pcbs (set_state s p st).pcbs s.ready_queue_head xs (λ q h. ground arith)
        v.chain;
  tail = v.tail;
  distinct = v.distinct;
}

-- The state after the running process has been put at the end of the queue.
requeue : Kernel → ℕ → Kernel
requeue s c = scheduler_add (set_state s c ready) c

module _ {s : Kernel} {c : ℕ} {xs : List ℕ} (v : IsScheduled s c xs) where
  requeue-IsQueue : IsQueue (requeue s c) (xs ++ (c ∷ []))
  unfolding requeue
  requeue-IsQueue = scheduler_add-IsQueue c (set_state-IsQueue c ready v.queue) v.not_null v.apart

  state-requeue :
      (q : ℕ) → ((requeue s c).pcbs q).state ≡ (if q == c then ready else (s.pcbs q).state)
  unfolding requeue
  state-requeue q = state-scheduler_add (set_state s c ready) c q v.not_null ∙ ground arith

  current-requeue : (requeue s c).current_process ≡ c
  unfolding requeue
  current-requeue = current-scheduler_add (set_state s c ready) c ∙ v.current

  table-requeue : (requeue s c).process_table ≡ s.process_table
  unfolding requeue
  table-requeue = table-scheduler_add (set_state s c ready) c

-- What follows the requeueing.
unfoldable pub dispatch : Kernel → ℕ → Option (ℕ × ℕ) × Kernel
dispatch s1 old =
    let (next, s2) = scheduler_next s1 in
    let new = if next == 0 then get_or s2.process_table 0 0 else next in
    if new == old then (none, s2) else (
      if old == 0 then none else some (old, new),
      record (set_state s2 new running) { current_process = new },
    )

schedule_running :
    (s : Kernel) (c : ℕ)
    → s.current_process ≡ c
    → c ≢ 0
    → (s.pcbs c).state ≡ running
    → scheduler_schedule s ≡ dispatch (requeue s c) c
unfolding scheduler_schedule requeue dispatch
schedule_running s c e ne r =
    let some_current : (c == 0) ≡ false = ground arith in rw (e, some_current, r)

pub dispatch_cons :
    {s : Kernel} (c x : ℕ) {xs : List ℕ}
    → IsQueue s (x ∷ xs)
    → c ≢ 0
    → c ≢ x
    → dispatch s c
      ≡ (some (c, x), record (set_state (scheduler_next s).1 x running) { current_process = x })
unfolding dispatch
dispatch_cons {s} c x v ne apart =
    let first : (scheduler_next s).0 ≡ x = (scheduler_next-cons v).0 in
    let some_next : (x == 0) ≡ false = ground (arith, v.distinct.0) in
    let other : (x == c) ≡ false = ground arith in
    let some_current : (c == 0) ≡ false = ground arith in rw (first, some_next, other, some_current)

pub pcbs-scheduler_next : (s : Kernel) → (scheduler_next s).1.pcbs ≡ s.pcbs
unfolding scheduler_next
pcbs-scheduler_next s = ground arith

-- Where another process waits, `scheduler_schedule` switches from the running process to the first
-- one that waits: that one runs, the others keep their order, and the old one waits behind them,
-- ready.
pub schedule_switches :
    {s : Kernel} {c x : ℕ} {xs : List ℕ}
    → IsScheduled s c (x ∷ xs)
    → ((scheduler_schedule s).0 ≡ some (c, x))
      × IsScheduled (scheduler_schedule s).1 x (xs ++ (c ∷ []))
      × (((scheduler_schedule s).1.pcbs c).state ≡ ready)
schedule_switches {s} {c} {x} {xs} v =
    let q = requeue-IsQueue v in
    let c_ne_x : c ≢ x = ground (arith, v.apart) in
    let n = scheduler_next-cons q in
    rw (schedule_running s c v.current v.not_null v.runs, dispatch_cons c x q v.not_null c_ne_x)
      (
        refl,
        record {
          queue =
              let w = set_state-IsQueue x running n.1 in
              record { chain = w.chain; tail = w.tail; distinct = w.distinct };
          current = refl;
          not_null = q.distinct.0;
          apart = q.distinct.1;
          runs = rw ==_refl;
        },
        let other : (c == x) ≡ false = ground arith in
            rw (other, pcbs-scheduler_next (requeue s c)) (state-requeue v c ∙ rw ==_refl),
      )

current-scheduler_next : (s : Kernel) → (scheduler_next s).1.current_process ≡ s.current_process
unfolding scheduler_next
current-scheduler_next s = ground arith

table-scheduler_next : (s : Kernel) → (scheduler_next s).1.process_table ≡ s.process_table
unfolding scheduler_next
table-scheduler_next s = ground arith

dispatch_same :
    {s : Kernel} (c : ℕ) {xs : List ℕ}
    → IsQueue s (c ∷ xs)
    → c ≢ 0
    → dispatch s c ≡ (none, (scheduler_next s).1)
unfolding dispatch
dispatch_same {s} c v ne =
    let first : (scheduler_next s).0 ≡ c = (scheduler_next-cons v).0 in
    let some_next : (c == 0) ≡ false = ground arith in rw (first, some_next, ==_refl)

-- A process that runs alone: the switch finds only that process, which is left marked as ready
-- though it goes on as the current one, and which is in no queue.
alone_first :
    {s : Kernel} {c : ℕ}
    → IsScheduled s c []
    → ((scheduler_schedule s).0 ≡ none)
      × IsQueue (scheduler_schedule s).1 []
      × ((scheduler_schedule s).1.current_process ≡ c)
      × (((scheduler_schedule s).1.pcbs c).state ≡ ready)
      × ((scheduler_schedule s).1.process_table ≡ s.process_table)
alone_first {s} {c} v =
    let q = requeue-IsQueue v in
    let n = scheduler_next-cons q in
    rw (schedule_running s c v.current v.not_null v.runs, dispatch_same c q v.not_null)
      (
        refl,
        n.1,
        current-scheduler_next (requeue s c) ∙ current-requeue v,
        rw (pcbs-scheduler_next (requeue s c)) (state-requeue v c ∙ rw ==_refl),
        table-scheduler_next (requeue s c) ∙ table-requeue v,
      )

not_put_back :
    (s : Kernel)
    → (s.pcbs s.current_process).state ≡ ready
    → scheduler_schedule s ≡ dispatch s s.current_process
unfolding scheduler_schedule dispatch
not_put_back s r =
    let stays : (not (s.current_process == 0) && is_running (s.pcbs s.current_process).state)
        ≡ false =
      rw r (ground arith) in
    rw stays

dispatch_nil :
    {s : Kernel} (c idle : ℕ)
    → IsQueue s []
    → get_or s.process_table 0 0 ≡ idle
    → idle ≢ 0
    → idle ≢ c
    → (dispatch s c).1 ≡ record (set_state s idle running) { current_process = idle }
unfolding dispatch
dispatch_nil {s} c idle q table ne apart =
    let no_idle : (idle == 0) ≡ false = ground arith in
    let other : (idle == c) ≡ false = ground arith in
    rw (scheduler_next-nil q, table, no_idle, other)

-- A current process that is marked as ready is not put back: with an empty queue the idle process
-- takes over.
idle_takes_over :
    {s : Kernel} (c idle : ℕ)
    → IsQueue s []
    → s.current_process ≡ c
    → (s.pcbs c).state ≡ ready
    → get_or s.process_table 0 0 ≡ idle
    → idle ≢ 0
    → idle ≢ c
    → ((scheduler_schedule s).1.current_process ≡ idle)
      × IsQueue (scheduler_schedule s).1 []
      × (((scheduler_schedule s).1.pcbs c).state ≡ ready)
idle_takes_over {s} c idle q e r table ne apart =
    let other : (c == idle) ≡ false = ground arith in
    let w = set_state-IsQueue idle running q in
    rw
      (
        not_put_back s (ap (λ p. (s.pcbs p).state) e ∙ r),
        dispatch_nil s.current_process idle q table ne (λ h. apart (h ∙ e)),
      )
      (refl, record { chain = w.chain; tail = w.tail; distinct = w.distinct }, rw other r)

-- A process that runs while none waits is lost by two calls of `scheduler_schedule`, if it is not
-- the idle process: afterwards the idle process is the current one, the queue is empty, and the
-- process is marked as ready but in no queue.
pub lone_process_lost :
    {s : Kernel} {c : ℕ}
    → IsScheduled s c []
    → get_or s.process_table 0 0 ≢ 0
    → get_or s.process_table 0 0 ≢ c
    → let t = (scheduler_schedule (scheduler_schedule s).1).1 in
      (t.current_process ≡ get_or s.process_table 0 0) × IsQueue t [] × ((t.pcbs c).state ≡ ready)
lone_process_lost {s} {c} v some_idle not_idle =
    let (none_yet, q, e, r, table) = alone_first v in
    idle_takes_over c (get_or s.process_table 0 0) q e r (ap (λ (l : List ℕ). get_or l 0 0) table)
      some_idle not_idle
