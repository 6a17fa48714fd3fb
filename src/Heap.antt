-- ===== src/Heap.antt =====
-- The kernel heap, src/kernel/heap.cpp: a first-fit allocator over one linked list of blocks.
-- The list is that of `heap_start` and its `next` pointers, each block with its address. A header
-- has 17 bytes, since the struct is packed. `bytes` is the memory that the blocks hand out.
pub mod Tiles
pub mod Malloc
pub mod Free
pub mod RoundTrip
pub mod Realloc
pub mod Init
mod Tests
use paradox_os.Base.{
  Bool, List, Option, [], false, for_range, if◌then◌else◌, leb, ltb, none, some, suc, true, zero, ℕ,
  ◌%◌, ◌&&◌, ◌*◌, ◌+◌, ◌-◌, ◌/◌, ◌==◌, ◌^◌, ◌∷◌,
}
use paradox_os.Pmm.{Pmm, pmm_alloc_contiguous}

-- `sizeof(heap_block)`
abbrev pub header : ℕ
header = 17

pub record Block : Type 0 where
  pub addr : ℕ
  pub size : ℕ
  pub is_free : Bool

pub record Heap : Type 0 where
  pub heap_start : List Block
  pub heap_size : ℕ
  pub bytes : ℕ → ℕ

abbrev pub no_heap : (ℕ → ℕ) → Heap
no_heap bytes = record { heap_start = []; heap_size = 0; bytes = bytes }

-- `(size + 7) & ~7` on `uint64_t`
abbrev pub align8 : ℕ → ℕ
align8 size = (size + 7) % 2 ^ 64 / 8 * 8

-- The block that is taken, split if what is left can hold a header and 8 bytes.
unfoldable pub carve : ℕ → Block → List Block → List Block
carve size b rest =
    if leb ((size + header + 8) % 2 ^ 64) b.size
    then record b { size = size; is_free = false }
      ∷ (record { addr = b.addr + header + size; size = b.size - size - header; is_free = true }
          ∷ rest)
    else record b { is_free = false } ∷ rest

abbrev pub keep_front : Block → Option (ℕ × List Block) → Option (ℕ × List Block)
keep_front b none = none
keep_front b (some (p, bs)) = some (p, b ∷ bs)

-- The loop of `kmalloc`: the pointer it returns, and the list it leaves.
unfoldable pub first_fit : ℕ → List Block → Option (ℕ × List Block)
first_fit size [] = none
first_fit size (b ∷ bs) =
    if b.is_free && leb size b.size
    then some (b.addr + header, carve size b bs)
    else keep_front b (first_fit size bs)

-- The null pointer is 0.
unfoldable pub kmalloc : Heap → ℕ → ℕ × Heap
kmalloc h size = if size == 0 then (0, h) else elim (first_fit (align8 size) h.heap_start) [
  | some (p, bs) ↦ (p, record h { heap_start = bs })
  | none ↦ (0, h)
]

-- `block->size += sizeof(heap_block) + next->size; block->next = next->next`
abbrev pub merge : Block → Block → Block
merge b n = record b { size = b.size + header + n.size }

unfoldable pub absorb_next : Block → List Block → List Block
absorb_next b [] = b ∷ []
absorb_next b (n ∷ bs) = if n.is_free then merge b n ∷ bs else b ∷ n ∷ bs

-- Marking the block at address `a` as free, and joining it with the next block if that is free.
unfoldable pub release : ℕ → List Block → List Block
release a [] = []
release a (b ∷ bs) =
    if b.addr == a then absorb_next (record b { is_free = true }) bs else b ∷ release a bs

-- The walk to the block before the one at address `a`, and joining the two if that is free.
unfoldable pub join_prev : ℕ → List Block → List Block
join_prev a [] = []
join_prev a (b ∷ []) = b ∷ []
join_prev a (b ∷ (n ∷ bs)) =
    if n.addr == a
    then (if b.is_free then merge b n ∷ bs else b ∷ (n ∷ bs))
    else b ∷ join_prev a (n ∷ bs)

-- The pointer is null or that of a block: what another pointer does is undefined in the program, and
-- stands here only so that the function is total.
unfoldable pub kfree : Heap → ℕ → Heap
kfree h ptr =
    if ptr == 0
    then h
    else record h { heap_start = join_prev (ptr - header) (release (ptr - header) h.heap_start) }

-- `block->size` for the block at address `a`
pub block_size : ℕ → List Block → ℕ
block_size a [] = 0
block_size a (b ∷ bs) = if b.addr == a then b.size else block_size a bs

-- The copying loop of `krealloc`.
pub copy_bytes : ℕ → ℕ → ℕ → (ℕ → ℕ) → ℕ → ℕ
copy_bytes dst src n =
    for_range n 0 (λ i bytes q. if q == dst + i then bytes (src + i) else bytes q)

pub krealloc : Heap → ℕ → ℕ → ℕ × Heap
krealloc h ptr new_size =
    if ptr == 0
    then kmalloc h new_size
    else if new_size == 0
    then (0, kfree h ptr)
    else if leb new_size (block_size (ptr - header) h.heap_start)
    then (ptr, h)
    else let (new_ptr, h') = kmalloc h new_size in
      if new_ptr == 0 then (0, h') else (
        new_ptr,
        kfree
            (record h' {
              bytes = copy_bytes new_ptr ptr (block_size (ptr - header) h'.heap_start) h'.bytes;
            })
            ptr,
      )

abbrev pub initial_heap_pages : ℕ
initial_heap_pages = 4096

-- The `for` loop that halves the request while it is at least 16 pages: the address and the pages.
pub halve_until : ℕ → Pmm → ℕ → ℕ × ℕ × Pmm
halve_until zero s n = (0, 0, s)
halve_until (suc fuel) s n =
    let (base, s') = pmm_alloc_contiguous s n in
    let rest = halve_until fuel s' (n / 2) in
    if ltb n 16 then (0, 0, s) else if base == 0 then rest else (base, n, s')

-- A loop from 2048 down by halves ends within 12 rounds.
pub heap_init : Heap → Pmm → Heap × Pmm
heap_init h s =
    let (base, s') = pmm_alloc_contiguous s initial_heap_pages in
    let (base', n, t) =
      if base == 0
      then halve_until 12 s' (initial_heap_pages / 2)
      else (base, initial_heap_pages, s') in
    if base' == 0 then (h, t) else (
      record h {
        heap_start = record { addr = base'; size = n * 4096 - header; is_free = true } ∷ [];
        heap_size = n * 4096;
      },
      t,
    )
