-- ===== src/Heap/Realloc.antt =====
-- `krealloc`: it keeps the block, or moves its bytes to a new one and frees the old.
use paradox_os.Base.{
  ==_ne, ==_refl, Bool-cases, List, [], ap, arith, false, for_range_inv, if◌then◌else◌, inl, inr,
  leb, leb→le, leb→lt, ltb, ltb→le, ltb→lt, none, not, refl, some, sym, true, ℕ, ◌&&◌, ◌+◌, ◌-◌,
  ◌<◌, ◌==◌, ◌^◌, ◌∙◌, ◌∷◌, ◌≡◌, ◌≢◌, ◌≤◌, ◌⊎◌,
}
use paradox_os.Heap.{Block, Heap, header, block_size, copy_bytes, kmalloc, kfree, krealloc}
use paradox_os.Heap.Tiles.{Tiles, used, IsValid, used-inside, used-apart}
use paradox_os.Heap.Malloc.{Served, served, refused, kmalloc_lem}
use paradox_os.Heap.Free.{kfree-IsValid}

-- The header of a block in use says its size.
block_size-used :
    (bs : List Block) (a e q n : ℕ)
    → Tiles a e bs
    → used bs q ≡ some n
    → block_size (q - header) bs ≡ n
unfolding block_size used
block_size-used [] a e q n t u = cc
block_size-used (b ∷ bs) a e q n t u = elim (Bool-cases (b.addr == q - header)) [
  | inl here ↦ elim (Bool-cases (not b.is_free && (b.addr + header == q))) [
    | inl hit ↦ rw here (ground arith)
    | inr miss ↦
        let i = used-inside bs (a + header + b.size) e q n t.1 (rw miss at u) in
        absurd (ground arith)
  ]
  | inr there ↦ rw there (block_size-used bs (a + header + b.size) e q n t.1 (ground arith))
]

-- The copy of `n` bytes between two ranges that do not meet.
record Copied (bytes : ℕ → ℕ) (dst src n : ℕ) (bytes' : ℕ → ℕ) : Type 0 where
  copied : (i : ℕ) → i < n → bytes' (dst + i) ≡ bytes (src + i)
  kept : (q : ℕ) → q < dst ⊎ (dst + n ≤ q) → bytes' q ≡ bytes q

copy_bytes-Copied :
    (bytes : ℕ → ℕ) (dst src n : ℕ)
    → (dst + n ≤ src) ⊎ (src + n ≤ dst)
    → Copied bytes dst src n (copy_bytes dst src n bytes)
unfolding copy_bytes
copy_bytes-Copied bytes dst src n apart =
    for_range_inv (Copied bytes dst src) _ n 0 n bytes (omega arith)
      (λ k b lo hi p. record {
        copied = λ i lt. elim (Bool-cases (dst + i == dst + k)) [
          | inl same ↦
              let e : k ≡ i = ground arith in
              rw (same, p.kept (src + k) (omega arith)) (ap (λ m. bytes (src + m)) e)
          | inr other ↦ rw other (p.copied i (ground arith))
        ];
        kept = λ q out.
            let off : (q == dst + k) ≡ false = ground arith in rw off (p.kept q (omega arith));
      })
      (record { copied = λ i lt. absurd (omega arith); kept = λ q out. refl })

-- The allocator itself leaves the memory that it hands out alone.
bytes-kmalloc : (h : Heap) (size : ℕ) → (kmalloc h size).1.bytes ≡ h.bytes
unfolding kmalloc
bytes-kmalloc h size = ground arith

bytes-kfree : (h : Heap) (p : ℕ) → (kfree h p).bytes ≡ h.bytes
unfolding kfree
bytes-kfree h p = ground arith

some_ne_none : {n : ℕ} → some n ≡ none → ⊥
some_ne_none h = cc

-- What `krealloc` promises of its result `r` for the block at `p` of `n` bytes.
pub data Resized (h : Heap) (p n new_size : ℕ) (r : ℕ × Heap) : Type 0 where
  -- the block is large enough, and nothing changes
  in_place : new_size ≤ n → r ≡ (p, h) → Resized h p n new_size r
  -- a new block begins with the bytes of the old one, which is in use no more
  moved :
      (granted : ℕ)
      → r.0 ≢ 0
      → r.0 ≢ p
      → new_size ≤ granted
      → ((i : ℕ) → i < n → r.1.bytes (r.0 + i) ≡ h.bytes (p + i))
      → ((q : ℕ)
          → used r.1.heap_start q
            ≡ (if p == q then none else if r.0 == q then some granted else used h.heap_start q))
      → Resized h p n new_size r
  -- the null pointer: no block was found, and nothing changes
  failed : r ≡ (0, h) → Resized h p n new_size r

module _ {base : ℕ} {h : Heap} (p n new_size : ℕ) (v : IsValid base h)
    (u : used h.heap_start p ≡ some n) (pos : 0 < new_size) (small : new_size ≤ 2 ^ 64 - 8) where
  inside : (base + header ≤ p) × (p + n ≤ base + h.heap_size)
  inside = used-inside h.heap_start base (base + h.heap_size) p n v.tiles u

  some_pointer : (p == 0) ≡ false
  some_pointer = ground (arith, inside)

  asked : (new_size == 0) ≡ false
  asked = ground arith

  old_size : block_size (p - header) h.heap_start ≡ n
  old_size = block_size-used h.heap_start base (base + h.heap_size) p n v.tiles u

  too_small : n < new_size → leb new_size (block_size (p - header) h.heap_start) ≡ false
  too_small lt = rw old_size (ground arith)

  -- The old block is in use, so the new one is another.
  apart : (p' : ℕ) → used h.heap_start p' ≡ none → (p' == p) ≡ false
  apart p' unused = elim (Bool-cases (p' == p)) [
    | inl same ↦
        let e : p' ≡ p = ground arith in
        absurd (some_ne_none (sym u ∙ sym (ap (used h.heap_start) e) ∙ unused))
    | inr other ↦ other
  ]

  no_overlap :
      (p' granted : ℕ) (h' : Heap)
      → Tiles base (base + h'.heap_size) h'.heap_start
      → used h'.heap_start p ≡ some n
      → used h'.heap_start p' ≡ some granted
      → p' ≢ p
      → n ≤ granted
      → (p' + n ≤ p) ⊎ (p + n ≤ p')
  no_overlap p' granted h' t still fresh ne le = elim (Bool-cases (ltb p' p)) [
    | inl below ↦ inl (
        omega (
          arith,
          used-apart h'.heap_start base (base + h'.heap_size) p' p granted n t fresh still
              (ltb→lt p' p below),
        ))
    | inr above ↦ inr (
        omega (
          arith,
          used-apart h'.heap_start base (base + h'.heap_size) p p' n granted t still fresh
              (omega (arith, ltb→le p' p above)),
        ))
  ]

  -- The branch that has to move the block.
  move :
      (k : ℕ × Heap)
      → kmalloc h new_size ≡ k
      → n < new_size
      → Served h new_size k
      → IsValid base k.1
      → Resized h p n new_size (krealloc h p new_size) × IsValid base (krealloc h p new_size).1
  unfolding krealloc
  move k e lt (refused is small_free) w =
      rw (some_pointer, asked, too_small lt, e ∙ is) (failed refl, v)
  move (p', h') e lt (served granted ne enough unused spec) w =
      let not_null : (p' == 0) ≡ false = ground arith in
      let differ : (p' == p) ≡ false = apart p' unused in
      let still : used h'.heap_start p ≡ some n = spec p ∙ (rw differ u) in
      let fresh : used h'.heap_start p' ≡ some granted = spec p' ∙ rw ==_refl in
      let size' : block_size (p - header) h'.heap_start ≡ n =
        block_size-used h'.heap_start base (base + h'.heap_size) p n w.tiles still in
      let filled : Heap = record h' { bytes = copy_bytes p' p n h'.bytes } in
      let filled_valid : IsValid base filled = record {
        tiles = w.tiles;
        coalesced = w.coalesced;
        not_null = w.not_null;
        bounded = w.bounded;
      } in
      let freed = kfree-IsValid {h = filled} p filled_valid (omega (arith, inside)) in
      let c =
        copy_bytes-Copied h'.bytes p' p n
          (no_overlap p' granted h' w.tiles still fresh (ground arith) (omega arith)) in
      let same_bytes : h'.bytes ≡ h.bytes =
        ap (λ (r : ℕ × Heap). r.1.bytes) (sym e) ∙ bytes-kmalloc h new_size in
      rw (some_pointer, asked, too_small lt, e, not_null, size')
        (
          moved granted ne (==_ne p' p differ) enough
              (λ i below.
                ap (λ f. f (p' + i)) (bytes-kfree filled p)
                ∙ c.copied i below
                ∙ ap (λ f. f (p + i)) same_bytes)
              (λ q. freed.0 q ∙ ap (λ o. if p == q then none else o) (spec q)),
          freed.1,
        )

  stay :
      leb new_size n ≡ true
      → Resized h p n new_size (krealloc h p new_size) × IsValid base (krealloc h p new_size).1
  unfolding krealloc
  stay fits =
      let fits' : leb new_size (block_size (p - header) h.heap_start) ≡ true = rw old_size fits in
      rw (some_pointer, asked, fits') (in_place (leb→le new_size n fits) refl, v)

  -- In a well-formed heap, for a block in use of `n` bytes and a new size of at least one and at most
  -- 2 ^ 64 - 8 bytes, `krealloc` either keeps the block, if it is large enough; or it frees the block
  -- and returns another pointer, not null, to at least the new size, whose first `n` bytes are the
  -- old ones; or it returns null and changes nothing. All other blocks in use are kept, and the heap
  -- is well formed afterwards.
  pub krealloc_lem :
      Resized h p n new_size (krealloc h p new_size) × IsValid base (krealloc h p new_size).1
  krealloc_lem = elim (Bool-cases (leb new_size n)) [
    | inl fits ↦ stay fits
    | inr short ↦
        let m = kmalloc_lem new_size v pos small in
        move (kmalloc h new_size) refl (leb→lt new_size n short) m.0 m.1
  ]
