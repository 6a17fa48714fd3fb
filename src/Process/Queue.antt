-- ===== src/Process/Queue.antt =====
-- The ready queue as a list of processes: `scheduler_add`, `scheduler_next` and `scheduler_remove`.
use paradox_os.Base.{
  Bool, List, [], ap, arith, false, false_ne_true, get_or, if◌then◌else◌, not, refl, sym, true, ℕ,
  ◌&&◌, ◌++◌, ◌==◌, ◌||◌, ◌∙◌, ◌∷◌, ◌≡◌, ◌≢◌,
}
use paradox_os.Process.{Process, ready, Kernel, scheduler_add, scheduler_next}

-- `p` occurs in the list.
abbrev pub has : ℕ → List ℕ → Bool
has p [] = false
has p (x ∷ xs) = (x == p) || has p xs

-- No process occurs twice, and none is null.
abbrev pub Distinct : List ℕ → Type 0
Distinct [] = Unit
Distinct (x ∷ xs) = (x ≢ 0) × (has x xs ≡ false) × Distinct xs

-- From `p` on the `next` pointers lead through the processes of the list to null.
abbrev pub Chain : (ℕ → Process) → ℕ → List ℕ → Type 0
Chain pcbs p [] = p ≡ 0
Chain pcbs p (x ∷ xs) = (p ≡ x) × Chain pcbs (pcbs x).next xs

-- The last process of the list, null for the empty list.
abbrev pub last : List ℕ → ℕ
last [] = 0
last (x ∷ []) = x
last (x ∷ (y ∷ ys)) = last (y ∷ ys)

-- The ready queue of `s` holds the processes `xs`, in this order.
pub record IsQueue (s : Kernel) (xs : List ℕ) : Type 0 where
  pub chain : Chain s.pcbs s.ready_queue_head xs
  pub tail : s.ready_queue_tail ≡ last xs
  pub distinct : Distinct xs

-- A chain survives writes outside it.
pub Chain-frame :
    (f g : ℕ → Process) (p : ℕ) (xs : List ℕ)
    → ((q : ℕ) → has q xs ≡ true → (f q).next ≡ (g q).next)
    → Chain f p xs
    → Chain g p xs
Chain-frame f g p [] same c = c
Chain-frame f g p (x ∷ xs) same c = (
  c.0,
  Chain-frame f g (g x).next xs (λ q h. same q (ground arith)) (rw (← same x (ground arith)) c.1),
)

pub has-append : (p : ℕ) (xs ys : List ℕ) → has p (xs ++ ys) ≡ (has p xs || has p ys)
has-append p [] ys = refl
has-append p (x ∷ xs) ys = ground (arith, has-append p xs ys)

pub has-last : (x : ℕ) (xs : List ℕ) → has (last (x ∷ xs)) (x ∷ xs) ≡ true
has-last x [] = ground arith
has-last x (y ∷ ys) = ground (arith, has-last y ys)

pub last-append : (xs : List ℕ) (p : ℕ) → last (xs ++ (p ∷ [])) ≡ p
last-append [] p = refl
last-append (x ∷ []) p = refl
last-append (x ∷ (y ∷ ys)) p = last-append (y ∷ ys) p

Distinct-append :
    (xs : List ℕ) (p : ℕ) → Distinct xs → p ≢ 0 → has p xs ≡ false → Distinct (xs ++ (p ∷ []))
Distinct-append [] p d ne off = (ne, refl, tt)
Distinct-append (x ∷ xs) p d ne off = (
  d.0,
  rw (has-append x xs (p ∷ [])) (ground (arith, d.1)),
  Distinct-append xs p d.2 ne (ground arith),
)

-- What is in the list is not what is not in it.
pub not_last : (x : ℕ) (xs : List ℕ) (y : ℕ) → has x xs ≡ false → has y xs ≡ true → x ≢ y
not_last x xs y off on e = false_ne_true (sym off ∙ ap (λ z. has z xs) e ∙ on)

-- Linking a new last process behind the old one.
Chain-append :
    (f g : ℕ → Process) (p x q : ℕ) (xs : List ℕ)
    → Distinct (x ∷ xs)
    → ((r : ℕ) → has r (x ∷ xs) ≡ true → r ≢ last (x ∷ xs) → (g r).next ≡ (f r).next)
    → (g (last (x ∷ xs))).next ≡ q
    → (g q).next ≡ 0
    → Chain f p (x ∷ xs)
    → Chain g p ((x ∷ xs) ++ (q ∷ []))
Chain-append f g p x q [] d same link end c = (c.0, (link, end))
Chain-append f g p x q (y ∷ ys) d same link end c =
    let apart : x ≢ last (y ∷ ys) = not_last x (y ∷ ys) (last (y ∷ ys)) d.1 (has-last y ys) in
    let kept : (g x).next ≡ (f x).next = same x (ground arith) apart in
    (
      c.0,
      rw kept (
          Chain-append f g (f x).next y q ys d.2 (λ r h ne. same r (ground arith) ne) link end c.1),
    )

-- The links that `scheduler_add` leaves.
module _ (s : Kernel) (p : ℕ) (ne : p ≢ 0) where
  head-scheduler_add :
      (scheduler_add s p).ready_queue_head
      ≡ (if s.ready_queue_head == 0 then p else s.ready_queue_head)
  unfolding scheduler_add
  head-scheduler_add = ground arith

  tail-scheduler_add : (scheduler_add s p).ready_queue_tail ≡ p
  unfolding scheduler_add
  tail-scheduler_add = ground arith

  next-scheduler_add :
      (r : ℕ)
      → s.ready_queue_tail ≢ p
      → ((scheduler_add s p).pcbs r).next ≡ (
          if not (s.ready_queue_head == 0) && (r == s.ready_queue_tail)
          then p
          else if r == p
          then 0
          else (s.pcbs r).next)
  unfolding scheduler_add
  next-scheduler_add r apart = ground arith

-- `scheduler_add` appends a process that is not null and not queued.
pub scheduler_add-IsQueue :
    {s : Kernel} {xs : List ℕ} (p : ℕ)
    → IsQueue s xs
    → p ≢ 0
    → has p xs ≡ false
    → IsQueue (scheduler_add s p) (xs ++ (p ∷ []))
scheduler_add-IsQueue {s} {xs = []} p v ne off =
    let apart : s.ready_queue_tail ≢ p = omega (arith, v.tail) in
    let empty : s.ready_queue_head ≡ 0 = v.chain in
    record {
      chain = (
        ground (arith, head-scheduler_add s p ne),
        ground (arith, next-scheduler_add s p ne p apart),
      );
      tail = tail-scheduler_add s p ne;
      distinct = (ne, refl, tt);
    }
scheduler_add-IsQueue {s} {xs = x ∷ xs} p v ne off =
    let in_list = has-last x xs in
    let p_ne_last : p ≢ last (x ∷ xs) = not_last p (x ∷ xs) (last (x ∷ xs)) off in_list in
    let apart : s.ready_queue_tail ≢ p = omega (arith, v.tail) in
    let some_head : s.ready_queue_head ≢ 0 = omega (arith, v.chain.0, v.distinct.0) in
    let queued : s.ready_queue_head ≡ (scheduler_add s p).ready_queue_head =
      ground (arith, head-scheduler_add s p ne) in
    record {
      chain = rw (← queued) (
          Chain-append s.pcbs (scheduler_add s p).pcbs s.ready_queue_head x p xs v.distinct
            (λ r h last_ne.
              ground
                (arith, next-scheduler_add s p ne r apart, not_last p (x ∷ xs) r off h, v.tail))
            (ground (arith, next-scheduler_add s p ne (last (x ∷ xs)) apart, v.tail))
            (ground (arith, next-scheduler_add s p ne p apart)) v.chain);
      tail = tail-scheduler_add s p ne ∙ sym (last-append (x ∷ xs) p);
      distinct = Distinct-append (x ∷ xs) p v.distinct ne off;
    }

-- What it leaves alone, and the state of each process.
pub state-scheduler_add :
    (s : Kernel) (p q : ℕ)
    → p ≢ 0
    → ((scheduler_add s p).pcbs q).state ≡ (if q == p then ready else (s.pcbs q).state)
unfolding scheduler_add
state-scheduler_add s p q ne = ground arith

pub current-scheduler_add :
    (s : Kernel) (p : ℕ) → (scheduler_add s p).current_process ≡ s.current_process
unfolding scheduler_add
current-scheduler_add s p = ground arith

pub table-scheduler_add : (s : Kernel) (p : ℕ) → (scheduler_add s p).process_table ≡ s.process_table
unfolding scheduler_add
table-scheduler_add s p = ground arith

-- `scheduler_next` takes the first process of the queue.
pub scheduler_next-cons :
    {s : Kernel} {x : ℕ} {xs : List ℕ}
    → IsQueue s (x ∷ xs)
    → ((scheduler_next s).0 ≡ x) × IsQueue (scheduler_next s).1 xs
unfolding scheduler_next
scheduler_next-cons {s} {x} {xs = []} v =
    let queued : (s.ready_queue_head == 0) ≡ false = ground (arith, v.chain.0, v.distinct.0) in
    rw (queued, v.chain.0, v.chain.1) (refl, record { chain = refl; tail = refl; distinct = tt })
scheduler_next-cons {s} {x} {xs = y ∷ ys} v =
    let queued : (s.ready_queue_head == 0) ≡ false = ground (arith, v.chain.0, v.distinct.0) in
    let more : ((s.pcbs x).next == 0) ≡ false = ground (arith, v.chain.1.0, v.distinct.2.0) in
    rw (queued, v.chain.0, more)
      (refl, record { chain = v.chain.1; tail = v.tail; distinct = v.distinct.2 })

pub scheduler_next-nil :
    {s : Kernel} → IsQueue s [] → scheduler_next s ≡ (get_or s.process_table 0 0, s)
unfolding scheduler_next
scheduler_next-nil v = rw v.chain
