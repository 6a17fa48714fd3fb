-- ===== src/Process/Exit.antt =====
-- The end of the running process: it is taken out and another one is scheduled.
use paradox_os.Base.{
  ==_refl, Bool-cases, List, [], arith, false, inl, inr, length, refl, some, suc, true, zero, ℕ,
  ◌<◌, ◌==◌, ◌∷◌, ◌≡◌, ◌≢◌,
}
use paradox_os.Process.{
  Process, Kernel, running, terminated, set_state, remove_loop, scheduler_remove,
  scheduler_schedule,
}
use paradox_os.Process.Queue.{has, Distinct, Chain, IsQueue, scheduler_next-cons}
use paradox_os.Process.Schedule.{
  IsScheduled, set_state-IsQueue, dispatch, dispatch_cons, pcbs-scheduler_next,
}

remove_loop-absent :
    (fuel : ℕ) (s : Kernel) (p current : ℕ) (xs : List ℕ)
    → Chain s.pcbs (s.pcbs current).next xs
    → has p xs ≡ false
    → length xs < fuel
    → ((y : ℕ) → has y xs ≡ true → y ≢ 0)
    → remove_loop fuel s p current ≡ some s
unfolding remove_loop
remove_loop-absent zero s p current xs ch off few some_nodes = absurd (omega arith)
remove_loop-absent (suc fuel) s p current [] ch off few some_nodes = rw ch refl
remove_loop-absent (suc fuel) s p current (x ∷ xs) ch off few some_nodes =
    let there : (x == 0) ≡ false = ground (arith, some_nodes x (ground arith)) in
    let other : (x == p) ≡ false = ground (arith, off) in
    rw (ch.0, there, other)
      (remove_loop-absent fuel s p x xs ch.1 (ground (arith, off)) (omega arith)
        (λ y h. some_nodes y (ground (arith, h))))

Chain-has : (f : ℕ → Process) (xs : List ℕ) → Distinct xs → (y : ℕ) → has y xs ≡ true → y ≢ 0
Chain-has f [] d y h = absurd (ground (arith, h))
Chain-has f (x ∷ xs) d y h = elim (Bool-cases (x == y)) [
  | inl e ↦ let same : x ≡ y = ground arith in rw (← same) d.0
  | inr e ↦ Chain-has f xs d.2 y (ground (arith, h))
]

-- A process that is in no queue is taken out without any change.
scheduler_remove-absent :
    {s : Kernel} {x : ℕ} {xs : List ℕ} (fuel p : ℕ)
    → IsQueue s (x ∷ xs)
    → has p (x ∷ xs) ≡ false
    → p ≢ 0
    → length xs < fuel
    → scheduler_remove fuel s p ≡ some s
unfolding scheduler_remove
scheduler_remove-absent {s} {x} {xs} fuel p v off ne few =
    let some_process : (p == 0) ≡ false = ground arith in
    let some_head : (s.ready_queue_head == 0) ≡ false = ground (arith, v.chain.0, v.distinct.0) in
    let other : (s.ready_queue_head == p) ≡ false = ground (arith, v.chain.0, off) in
    let behind : Chain s.pcbs (s.pcbs s.ready_queue_head).next xs = rw (v.chain.0) v.chain.1 in
    simp (some_process, some_head, other)
      (remove_loop-absent fuel s p s.ready_queue_head xs behind (ground (arith, off)) few
        (Chain-has s.pcbs xs v.distinct.2))

schedule_stopped :
    (s : Kernel) (c : ℕ)
    → s.current_process ≡ c
    → (s.pcbs c).state ≡ terminated
    → scheduler_schedule s ≡ dispatch s c
unfolding scheduler_schedule dispatch
schedule_stopped s c e st = elim (Bool-cases (c == 0)) [
  | inl z ↦ rw (e, z) refl
  | inr z ↦ rw (e, z, st) refl
]

-- Where the running process is marked as terminated, `scheduler_schedule` gives the processor to the
-- first process that waits, and the terminated one is in no queue.
terminated_switches :
    {s : Kernel} {c x : ℕ} {xs : List ℕ}
    → IsScheduled s c (x ∷ xs)
    → IsScheduled (scheduler_schedule (set_state s c terminated)).1 x xs
      × (((scheduler_schedule (set_state s c terminated)).1.pcbs c).state ≡ terminated)
terminated_switches {s} {c} {x} {xs} v =
    let k : Kernel = set_state s c terminated in
    let q = set_state-IsQueue c terminated v.queue in
    let stopped : (k.pcbs c).state ≡ terminated = rw (==_refl c) refl in
    let c_ne_x : c ≢ x = ground (arith, v.apart) in
    let n = scheduler_next-cons q in
    rw (schedule_stopped k c v.current stopped, dispatch_cons c x q v.not_null c_ne_x)
      (
        record {
          queue =
              let w = set_state-IsQueue x running n.1 in
              record { chain = w.chain; tail = w.tail; distinct = w.distinct };
          current = refl;
          not_null = q.distinct.0;
          apart = q.distinct.1;
          runs = rw ==_refl;
        },
        let other : (c == x) ≡ false = ground arith in rw (other, pcbs-scheduler_next k) stopped,
      )

-- The two steps of the end of a process: taking it out of the queue, in which it is not, and
-- scheduling another one.
pub exit_switches :
    {s : Kernel} {c x : ℕ} {xs : List ℕ} (fuel : ℕ)
    → IsScheduled s c (x ∷ xs)
    → length xs < fuel
    → (scheduler_remove fuel (set_state s c terminated) c ≡ some (set_state s c terminated))
      × IsScheduled (scheduler_schedule (set_state s c terminated)).1 x xs
      × (((scheduler_schedule (set_state s c terminated)).1.pcbs c).state ≡ terminated)
exit_switches {s} {c} {x} {xs} fuel v few =
    let t = terminated_switches v in
    (
      scheduler_remove-absent fuel c (set_state-IsQueue c terminated v.queue) v.apart v.not_null
          few,
      t.0,
      t.1,
    )
