-- ===== src/Process/Table.antt =====
-- `process_create` and the process table: what a failure leaves behind, and what a success adds.
use paradox_os.Base.{
  ==_iff, ==_ne, ==_refl, Bool-cases, List, Option-cases, [], ap, arith, false, get_or, inl, inr,
  length, none, refl, set, some, suc, sym, true, ℕ, ◌<◌, ◌==◌, ◌∙◌, ◌∷◌, ◌≡◌, ◌≢◌,
}
use paradox_os.Pmm.{Pmm, pmm_alloc_page, pmm_free_page}
use paradox_os.Pmm.Bitmap
use paradox_os.Pmm.Alloc.{page, full, pmm_alloc_page_lem, pmm_free_page-pmm_alloc_page}
use paradox_os.Heap.{Heap, kmalloc, kfree}
use paradox_os.Heap.Tiles
use paradox_os.Heap.Malloc.{served, refused, kmalloc_lem}
use paradox_os.Heap.RoundTrip.{kfree-kmalloc}
use paradox_os.Process.{ready, Kernel, process_size, find_slot, process_create}

-- The allocators and the table are as they were.
abbrev pub SameResources : Kernel → Kernel → Type 0
SameResources s t = (t.heap ≡ s.heap) × (t.pmm ≡ s.pmm) × (t.process_table ≡ s.process_table)

kmalloc-null :
    {base : ℕ} {h : Heap}
    → Tiles.IsValid base h
    → (kmalloc h process_size).0 ≡ 0
    → (kmalloc h process_size).1 ≡ h
kmalloc-null v null = elim (kmalloc_lem process_size v (omega arith) (omega arith)).0 [
  | served n ne enough unused spec ↦ absurd (ne null)
  | refused e small ↦ ap (λ (r : ℕ × Heap). r.1) e
]

alloc-null : {s : Pmm} → Bitmap.IsValid s → (pmm_alloc_page s).0 ≡ 0 → (pmm_alloc_page s).1 ≡ s
alloc-null v null = elim (pmm_alloc_page_lem v).0 [
  | page i e pos lt off before marked added ↦ absurd (omega arith)
  | full e used ↦ ap (λ (r : ℕ × Pmm). r.1) e
]

module _ (s : Kernel) (name : List ℕ) (entry_point cr3 : ℕ) where
  -- The stages of the function, and what each failure leaves.
  no_slot : find_slot s.process_table 0 ≡ none → process_create s name entry_point cr3 ≡ (0, s)
  unfolding process_create
  no_slot e = rw (e, process_create)

  module _ (slot : ℕ) (has_slot : find_slot s.process_table 0 ≡ some slot) where
    no_block :
        ((kmalloc s.heap process_size).0 == 0) ≡ true
        → process_create s name entry_point cr3
          ≡ (0, record s { heap = (kmalloc s.heap process_size).1 })
    unfolding process_create
    no_block e = rw (has_slot, process_create) (rw e)

    module _ (block : ((kmalloc s.heap process_size).0 == 0) ≡ false) where
      no_kernel_stack :
          ((pmm_alloc_page s.pmm).0 == 0) ≡ true
          → let t = (process_create s name entry_point cr3).1 in
            (t.heap ≡ kfree (kmalloc s.heap process_size).1 (kmalloc s.heap process_size).0)
            × (t.pmm ≡ (pmm_alloc_page s.pmm).1)
            × (t.process_table ≡ s.process_table)
      unfolding process_create
      no_kernel_stack e = rw (has_slot, process_create) (rw (block, e) (refl, refl, refl))

      no_user_stack :
          ((pmm_alloc_page s.pmm).0 == 0) ≡ false
          → ((pmm_alloc_page (pmm_alloc_page s.pmm).1).0 == 0) ≡ true
          → let t = (process_create s name entry_point cr3).1 in
            (t.heap ≡ kfree (kmalloc s.heap process_size).1 (kmalloc s.heap process_size).0)
            × (t.pmm
                ≡ pmm_free_page
                    (pmm_alloc_page (pmm_alloc_page s.pmm).1).1
                    (pmm_alloc_page s.pmm).0)
            × (t.process_table ≡ s.process_table)
      unfolding process_create
      no_user_stack k e = rw (has_slot, process_create) (rw (block, k, e) (refl, refl, refl))

      null_kernel_stack :
          ((pmm_alloc_page s.pmm).0 == 0) ≡ true → (process_create s name entry_point cr3).0 ≡ 0
      unfolding process_create
      null_kernel_stack e = rw (has_slot, process_create) (rw (block, e))

      null_user_stack :
          ((pmm_alloc_page s.pmm).0 == 0) ≡ false
          → ((pmm_alloc_page (pmm_alloc_page s.pmm).1).0 == 0) ≡ true
          → (process_create s name entry_point cr3).0 ≡ 0
      unfolding process_create
      null_user_stack k e = rw (has_slot, process_create) (rw (block, k, e))

      created :
          ((pmm_alloc_page s.pmm).0 == 0) ≡ false
          → ((pmm_alloc_page (pmm_alloc_page s.pmm).1).0 == 0) ≡ false
          → let r = process_create s name entry_point cr3 in
            (r.0 ≡ (kmalloc s.heap process_size).0)
            × (r.1.process_table ≡ set s.process_table slot r.0)
            × (r.1.heap ≡ (kmalloc s.heap process_size).1)
            × (r.1.pmm ≡ (pmm_alloc_page (pmm_alloc_page s.pmm).1).1)
            × ((r.1.pcbs r.0).pid ≡ s.next_pid)
            × ((r.1.pcbs r.0).state ≡ ready)
            × ((q : ℕ) → q ≢ r.0 → r.1.pcbs q ≡ s.pcbs q)
      unfolding process_create
      created k u =
          rw (has_slot, process_create)
            (rw (block, k, u, ==_refl)
              (
                refl,
                refl,
                refl,
                refl,
                refl,
                refl,
                λ q ne.
                    let off : (q == (kmalloc s.heap process_size).0) ≡ false = ground arith in
                    rw off,
              ))

-- Where the block cannot be had, and where one of the stacks cannot.
module _ {base : ℕ} (s : Kernel) (name : List ℕ) (entry_point cr3 : ℕ)
    (heap_valid : Tiles.IsValid base s.heap) (pmm_valid : Bitmap.IsValid s.pmm) where
  create : ℕ × Kernel
  create = process_create s name entry_point cr3

  block_freed :
      ((kmalloc s.heap process_size).0 == 0) ≡ false
      → kfree (kmalloc s.heap process_size).1 (kmalloc s.heap process_size).0 ≡ s.heap
  block_freed b = kfree-kmalloc process_size heap_valid (==_ne _ 0 b)

  stacks_freed :
      ((pmm_alloc_page s.pmm).0 == 0) ≡ false
      → ((pmm_alloc_page (pmm_alloc_page s.pmm).1).0 == 0) ≡ true
      → pmm_free_page (pmm_alloc_page (pmm_alloc_page s.pmm).1).1 (pmm_alloc_page s.pmm).0 ≡ s.pmm
  stacks_freed k u =
      rw (alloc-null (pmm_alloc_page_lem pmm_valid).1 ((==_iff _ _).0 u))
        (pmm_free_page-pmm_alloc_page pmm_valid (==_ne _ 0 k))

  with_block :
      (slot : ℕ)
      → find_slot s.process_table 0 ≡ some slot
      → ((kmalloc s.heap process_size).0 == 0) ≡ false
      → create.0 ≡ 0
      → SameResources s create.1
  unfolding create
  with_block slot e b null = elim (Bool-cases ((pmm_alloc_page s.pmm).0 == 0)) [
    | inl k ↦
        let (h, m, t) = no_kernel_stack s name entry_point cr3 slot e b k in
        (h ∙ block_freed b, m ∙ alloc-null pmm_valid ((==_iff _ _).0 k), t)
    | inr k ↦ elim (Bool-cases ((pmm_alloc_page (pmm_alloc_page s.pmm).1).0 == 0)) [
      | inl u ↦
          let (h, m, t) = no_user_stack s name entry_point cr3 slot e b k u in
          (h ∙ block_freed b, m ∙ stacks_freed k u, t)
      | inr u ↦ absurd (==_ne _ 0 b (sym (created s name entry_point cr3 slot e b k u).0 ∙ null))
    ]
  ]

  -- A call of `process_create` that returns null leaves nothing behind: the heap, the physical
  -- memory manager and the process table are as before, on each of its four failures.
  pub process_create-null :
      (process_create s name entry_point cr3).0 ≡ 0
      → SameResources s (process_create s name entry_point cr3).1
  unfolding create
  process_create-null null = elim (Option-cases (find_slot s.process_table 0)) [
    | inl e ↦ rw (no_slot s name entry_point cr3 e) (refl, refl, refl)
    | inr (slot, e) ↦ elim (Bool-cases ((kmalloc s.heap process_size).0 == 0)) [
      | inl b ↦
          rw (no_block s name entry_point cr3 slot e b)
            (kmalloc-null heap_valid ((==_iff _ _).0 b), refl, refl)
      | inr b ↦ with_block slot e b null
    ]
  ]

find_slot-get_or :
    (table : List ℕ) (p : ℕ) {i : ℕ}
    → find_slot table p ≡ some i
    → (i < length table) × (get_or table i 0 ≡ p)
unfolding find_slot
find_slot-get_or [] p e = cc
find_slot-get_or (q ∷ qs) p {i} e = elim (Bool-cases (q == p)) [
  | inl here ↦ let z : 0 ≡ i = ground arith in rw (← z) (omega arith, ground arith)
  | inr there ↦ elim (Option-cases (find_slot qs p)) [
    | inl missing ↦ absurd (ground arith)
    | inr (j, found) ↦
        let z : suc j ≡ i = ground arith in
        let ih = find_slot-get_or qs p found in rw (← z) (omega (arith, ih.0), ih.1)
  ]
]

-- A call of `process_create` that returns a process puts it in a slot of the table that was empty,
-- with the next process number and ready; every other slot and every other process is as before.
pub process_create-some :
    (s : Kernel) (name : List ℕ) (entry_point cr3 : ℕ)
    → let r = process_create s name entry_point cr3 in
      r.0 ≢ 0
      → (slot : ℕ) × (slot < length s.process_table)
        × (get_or s.process_table slot 0 ≡ 0)
        × (r.1.process_table ≡ set s.process_table slot r.0)
        × ((r.1.pcbs r.0).pid ≡ s.next_pid)
        × ((r.1.pcbs r.0).state ≡ ready)
        × ((q : ℕ) → q ≢ r.0 → r.1.pcbs q ≡ s.pcbs q)
process_create-some s name entry_point cr3 ne = elim (Option-cases (find_slot s.process_table 0)) [
  | inl e ↦ absurd (ne (ap (λ (r : ℕ × Kernel). r.0) (no_slot s name entry_point cr3 e)))
  | inr (slot, e) ↦ elim (Bool-cases ((kmalloc s.heap process_size).0 == 0)) [
    | inl b ↦ absurd (ne (ap (λ (r : ℕ × Kernel). r.0) (no_block s name entry_point cr3 slot e b)))
    | inr b ↦ elim (Bool-cases ((pmm_alloc_page s.pmm).0 == 0)) [
      | inl k ↦ absurd (ne (null_kernel_stack s name entry_point cr3 slot e b k))
      | inr k ↦ elim (Bool-cases ((pmm_alloc_page (pmm_alloc_page s.pmm).1).0 == 0)) [
        | inl u ↦ absurd (ne (null_user_stack s name entry_point cr3 slot e b k u))
        | inr u ↦
            let (p, t, h, m, pid, st, frame) = created s name entry_point cr3 slot e b k u in
            let at = find_slot-get_or s.process_table 0 e in (slot, at.0, at.1, t, pid, st, frame)
      ]
    ]
  ]
]
