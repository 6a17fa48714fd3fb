-- ===== src/Process/Remove.antt =====
-- `scheduler_remove`: the queue without the process.
use paradox_os.Base.{
  ==_refl, Bool-cases, List, [], ap, arith, false, if◌then◌else◌, inl, inr, length, refl, some, suc,
  sym, true, zero, ℕ, ◌<◌, ◌==◌, ◌∙◌, ◌∷◌, ◌≡◌, ◌≢◌,
}
use mathlib.Core.Path.{subst}
use paradox_os.Process.{Kernel, set_next, remove_loop, scheduler_remove}
use paradox_os.Process.Queue.{has, Distinct, Chain, last, IsQueue, Chain-frame, has-last, not_last}

-- The list without the first occurrence of `p`.
unfoldable pub erase : ℕ → List ℕ → List ℕ
erase p [] = []
erase p (x ∷ xs) = if x == p then xs else x ∷ erase p xs

-- What the loop makes of the processes `rest` behind `x`: those of `left`.
record Removed (s : Kernel) (x : ℕ) (rest left : List ℕ) (t : Kernel) : Type 0 where
  chain : Chain t.pcbs x (x ∷ left)
  tail : t.ready_queue_tail ≡ last (x ∷ left)
  head : t.ready_queue_head ≡ s.ready_queue_head
  frame : (r : ℕ) → has r (x ∷ rest) ≡ false → (t.pcbs r).next ≡ (s.pcbs r).next

has-erase : (p q : ℕ) (xs : List ℕ) → has q xs ≡ false → has q (erase p xs) ≡ false
unfolding erase
has-erase p q [] h = refl
has-erase p q (x ∷ xs) h = ground (arith, has-erase p q xs)

Distinct-erase : (p : ℕ) (xs : List ℕ) → Distinct xs → Distinct (erase p xs)
unfolding erase
Distinct-erase p [] d = tt
Distinct-erase p (x ∷ xs) d = elim (Bool-cases (x == p)) [
  | inl here ↦ rw here d.2
  | inr there ↦ rw there (d.0, has-erase p x xs d.1, Distinct-erase p xs d.2)
]

erase_absent : (p : ℕ) (xs : List ℕ) → has p xs ≡ false → erase p xs ≡ xs
unfolding erase
erase_absent p [] h = refl
erase_absent p (x ∷ xs) h = ground (arith, erase_absent p xs)

erase_here : (p y : ℕ) (ys : List ℕ) → y ≡ p → erase p (y ∷ ys) ≡ ys
unfolding erase
erase_here p y ys e = ground arith

erase_there : (p y : ℕ) (ys : List ℕ) → (y == p) ≡ false → erase p (y ∷ ys) ≡ y ∷ erase p ys
unfolding erase
erase_there p y ys e = rw e

-- Taking out the process behind `x`.
unlink : Kernel → ℕ → ℕ → Kernel
unlink s p x =
    let t = set_next s x (s.pcbs p).next in
    if t.ready_queue_tail == p then record t { ready_queue_tail = x } else t

module _ (s : Kernel) (p x : ℕ) where
  next-unlink :
      (r : ℕ) → ((unlink s p x).pcbs r).next ≡ (if r == x then (s.pcbs p).next else (s.pcbs r).next)
  unfolding unlink
  next-unlink r = ground arith

  tail-unlink :
      (unlink s p x).ready_queue_tail ≡ (if s.ready_queue_tail == p then x else s.ready_queue_tail)
  unfolding unlink
  tail-unlink = ground arith

  head-unlink : (unlink s p x).ready_queue_head ≡ s.ready_queue_head
  unfolding unlink
  head-unlink = ground arith

-- The last process of what is left behind `x`.
last-unlink :
    (p x tail : ℕ) (ys : List ℕ)
    → has p ys ≡ false
    → tail ≡ last (p ∷ ys)
    → (if tail == p then x else tail) ≡ last (x ∷ ys)
last-unlink p x tail [] off e = ground arith
last-unlink p x tail (z ∷ zs) off e =
    ground (arith, not_last p (z ∷ zs) (last (z ∷ zs)) off (has-last z zs))

unlink-Removed :
    (s : Kernel) (p x : ℕ) (ys : List ℕ)
    → Distinct (x ∷ (p ∷ ys))
    → Chain s.pcbs x (x ∷ (p ∷ ys))
    → s.ready_queue_tail ≡ last (p ∷ ys)
    → Removed s x (p ∷ ys) ys (unlink s p x)
unlink-Removed s p x ys d c tail = record {
  chain = (
    refl,
    rw (next-unlink s p x x, ==_refl)
        (Chain-frame s.pcbs (unlink s p x).pcbs (s.pcbs p).next ys
          (λ r on. ground (arith, next-unlink s p x r, not_last x ys r (ground arith) on)) c.1.1),
  );
  tail = tail-unlink s p x ∙ last-unlink p x s.ready_queue_tail ys d.2.1 tail;
  head = head-unlink s p x;
  frame = λ r off. ground (arith, next-unlink s p x r);
}

-- Past a process that stays.
pass-Removed :
    (s : Kernel) (x y : ℕ) (ys left : List ℕ) {t : Kernel}
    → Distinct (x ∷ (y ∷ ys))
    → (s.pcbs x).next ≡ y
    → Removed s y ys left t
    → Removed s x (y ∷ ys) (y ∷ left) t
pass-Removed s x y ys left d link r = record {
  chain = (refl, (r.frame x d.1 ∙ link, r.chain.1));
  tail = r.tail;
  head = r.head;
  frame = λ q off. r.frame q (ground arith);
}

-- One round of the loop.
remove_loop_end :
    (fuel : ℕ) (s : Kernel) (p x : ℕ) → (s.pcbs x).next ≡ 0 → remove_loop (suc fuel) s p x ≡ some s
unfolding remove_loop
remove_loop_end fuel s p x e = ground arith

remove_loop_here :
    (fuel : ℕ) (s : Kernel) (p x : ℕ)
    → p ≢ 0
    → (s.pcbs x).next ≡ p
    → remove_loop (suc fuel) s p x ≡ some (unlink s p x)
unfolding remove_loop unlink
remove_loop_here fuel s p x ne e =
    let more : ((s.pcbs x).next == 0) ≡ false = ground arith in
    let hit : ((s.pcbs x).next == p) ≡ true = ground arith in rw (more, hit)

remove_loop_pass :
    (fuel : ℕ) (s : Kernel) (p x y : ℕ)
    → y ≢ 0
    → (y == p) ≡ false
    → (s.pcbs x).next ≡ y
    → remove_loop (suc fuel) s p x ≡ remove_loop fuel s p y
unfolding remove_loop
remove_loop_pass fuel s p x y ne miss e =
    let more : (y == 0) ≡ false = ground arith in rw (e, more, miss)

at_link :
    (s : Kernel) (x y : ℕ) (ys : List ℕ)
    → Chain s.pcbs x (x ∷ (y ∷ ys))
    → Chain s.pcbs (s.pcbs y).next ys
at_link s x y ys c = c.1.1

remove_loop-Removed :
    (fuel : ℕ) (s : Kernel) (p x : ℕ) (rest : List ℕ)
    → length rest < fuel
    → Distinct (x ∷ rest)
    → Chain s.pcbs x (x ∷ rest)
    → s.ready_queue_tail ≡ last (x ∷ rest)
    → (t : Kernel) × (remove_loop fuel s p x ≡ some t) × Removed s x rest (erase p rest) t
unfolding erase
remove_loop-Removed zero s p x rest lt d c tail = absurd (omega arith)
remove_loop-Removed (suc fuel) s p x [] lt d c tail = (
  s,
  remove_loop_end fuel s p x c.1,
  record { chain = c; tail = tail; head = refl; frame = λ r off. refl },
)
remove_loop-Removed (suc fuel) s p x (y ∷ ys) lt d c tail = elim (Bool-cases (y == p)) [
  | inl here ↦
      let e : y ≡ p = ground arith in
      let e' : (s.pcbs x).next ≡ p = c.1.0 ∙ e in
      (
        unlink s p x,
        remove_loop_here fuel s p x (λ z. d.2.0 (e ∙ z)) e',
        rw (erase_here p y ys e, e)
            (unlink-Removed s p x ys (subst (λ z. Distinct (x ∷ (z ∷ ys))) e d)
              (subst (λ z. Chain s.pcbs x (x ∷ (z ∷ ys))) e c) (tail ∙ ap (λ z. last (z ∷ ys)) e)),
      )
  | inr there ↦
      let (t, e, r) =
        remove_loop-Removed fuel s p y ys (omega arith) d.2 (refl, at_link s x y ys c) tail in
      (
        t,
        remove_loop_pass fuel s p x y d.2.0 there c.1.0 ∙ e,
        rw (erase_there p y ys there) (pass-Removed s x y ys (erase p ys) d c.1.0 r),
      )
]

-- Taking out the first process.
abbrev pop_head : Kernel → ℕ → Kernel
pop_head s p =
    let t : Kernel = record s { ready_queue_head = (s.pcbs p).next } in
    if t.ready_queue_tail == p then record t { ready_queue_tail = 0 } else t

pop_head-IsQueue :
    {s : Kernel} {x : ℕ} (xs : List ℕ) → IsQueue s (x ∷ xs) → IsQueue (pop_head s x) xs
pop_head-IsQueue {s} {x} [] v =
    let at_tail : (s.ready_queue_tail == x) ≡ true = ground (arith, v.tail) in
    rw at_tail (record { chain = v.chain.1; tail = refl; distinct = tt })
pop_head-IsQueue {s} {x} (y ∷ ys) v =
    let off_tail : (s.ready_queue_tail == x) ≡ false =
      ground (arith, v.tail, not_last x (y ∷ ys) (last (y ∷ ys)) v.distinct.1 (has-last y ys)) in
    rw off_tail (record { chain = v.chain.1; tail = v.tail; distinct = v.distinct.2 })

-- Whatever the length of the queue, `scheduler_remove` on more fuel than that takes the process out
-- of the ready queue, if it is there, and leaves the others in their order.
pub scheduler_remove-IsQueue :
    {s : Kernel} {xs : List ℕ} (fuel p : ℕ)
    → IsQueue s xs
    → p ≢ 0
    → length xs < fuel
    → (t : Kernel) × (scheduler_remove fuel s p ≡ some t) × IsQueue t (erase p xs)
unfolding scheduler_remove
scheduler_remove-IsQueue {s} {xs = []} fuel p v ne lt =
    let empty : (s.ready_queue_head == 0) ≡ true = ground (arith, v.chain) in
    let some_proc : (p == 0) ≡ false = ground arith in
    (s, rw (some_proc, empty), subst (IsQueue s) (sym (erase_absent p [] refl)) v)
scheduler_remove-IsQueue {s} {xs = x ∷ xs} fuel p v ne lt =
    let queued : (s.ready_queue_head == 0) ≡ false = ground (arith, v.chain.0, v.distinct.0) in
    let some_proc : (p == 0) ≡ false = ground arith in
    elim (Bool-cases (x == p)) [
      | inl here ↦
          let at_head : (s.ready_queue_head == p) ≡ true = ground (arith, v.chain.0) in
          let e : x ≡ p = ground arith in
          (
            pop_head s p,
            rw (some_proc, queued, at_head),
            subst (IsQueue (pop_head s p)) (sym (erase_here p x xs e))
                (subst (λ q. IsQueue (pop_head s q) xs) e (pop_head-IsQueue xs v)),
          )
      | inr there ↦
          let off_head : (s.ready_queue_head == p) ≡ false = ground (arith, v.chain.0) in
          let (t, e, r) =
            remove_loop-Removed fuel s p x xs (omega arith) v.distinct (refl, v.chain.1) v.tail in
          (
            t,
            rw (some_proc, queued, off_head) (ap (remove_loop fuel s p) v.chain.0 ∙ e),
            subst (IsQueue t) (sym (erase_there p x xs there)) (record {
              chain = (r.head ∙ v.chain.0, r.chain.1);
              tail = r.tail;
              distinct =
                  (v.distinct.0, has-erase p x xs v.distinct.1, Distinct-erase p xs v.distinct.2);
            }),
          )
    ]
