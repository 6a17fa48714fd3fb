-- ===== src/Heap/Malloc.antt =====
-- `kmalloc`: what it hands out, and that the heap stays well formed.
use paradox_os.Base.{
  ==_refl, Bool, Bool-cases, List, Option, [], arith, false, if◌then◌else◌, inl, inr, leb, leb→le,
  none, not, refl, some, sym, true, ℕ, ◌%◌, ◌&&◌, ◌+◌, ◌-◌, ◌<◌, ◌==◌, ◌^◌, ◌∙◌, ◌∷◌, ◌≡◌, ◌≢◌, ◌≤◌,
  ◌⊎◌,
}
use paradox_os.Heap.{Block, Heap, header, align8, carve, keep_front, first_fit, kmalloc}
use paradox_os.Heap.Tiles.{
  Tiles, head_free, Coalesced, used, largest_free, IsValid, Tiles-le, used-before, used-inside,
}

-- The first fit in the list `bs` for `size` bytes: the pointer `p`, and the list `cs` it leaves.
pub record Fit (size a e : ℕ) (bs : List Block) (p : ℕ) (cs : List Block) : Type 0 where
  pub granted : ℕ
  pub enough : size ≤ granted
  pub tiles : Tiles a e cs
  pub coalesced : Coalesced cs
  pub front : head_free cs ≡ true → head_free bs ≡ true
  pub after : a + header ≤ p
  pub unused : used bs p ≡ none
  pub spec : (q : ℕ) → used cs q ≡ (if p == q then some granted else used bs q)

module _ (size a e : ℕ) (b : Block) (bs : List Block) (free : b.is_free ≡ true)
    (fits : size ≤ b.size) (t : Tiles a e (b ∷ bs)) (c : Coalesced (b ∷ bs))
    (small : e ≤ 2 ^ 64 - 4096) where
  not_used : used (b ∷ bs) (b.addr + header) ≡ none
  unfolding used
  not_used =
      rw free (used-before bs (a + header + b.size) e (b.addr + header) t.1 (omega (arith, t.0)))

  remainder :
      leb ((size + header + 8) % 2 ^ 64) b.size ≡ true
      → Tiles (a + header + size + header + (b.size - size - header)) e bs
  remainder split =
      let room : (size + header + 8) % 2 ^ 64 ≤ b.size = leb→le _ _ split in
      let end : a + header + b.size ≤ e = Tiles-le bs _ e t.1 in
      let whole : a + header + size + header + (b.size - size - header) ≡ a + header + b.size =
        omega arith in
      rw whole t.1

  carve-Fit : Fit size a e (b ∷ bs) (b.addr + header) (carve size b bs)
  unfolding carve used
  carve-Fit = elim (Bool-cases (leb ((size + header + 8) % 2 ^ 64) b.size)) [
    | inl split ↦
        rw (split, carve)
          (record {
            granted = size;
            enough = omega arith;
            tiles = (t.0, (omega (arith, t.0), remainder split));
            coalesced = ground arith;
            front = ground arith;
            after = omega arith;
            unused = not_used;
            spec = λ q. ground arith;
          })
    | inr whole ↦
        rw (whole, carve)
          (record {
            granted = b.size;
            enough = fits;
            tiles = t;
            coalesced = (refl, c.1);
            front = ground arith;
            after = omega arith;
            unused = not_used;
            spec = λ q. ground arith;
          })
  ]

and_false_mono : (x y z : Bool) → (z ≡ true → y ≡ true) → (x && y) ≡ false → (x && z) ≡ false
and_false_mono x y z m h = ground (arith, m)

module _ (size a e : ℕ) (b : Block) (bs : List Block) (t : Tiles a e (b ∷ bs))
    (c : Coalesced (b ∷ bs)) where
  here : ℕ → Bool
  here q = not b.is_free && (b.addr + header == q)

  not_here : (p : ℕ) → a + header + b.size + header ≤ p → here p ≡ false
  unfolding here
  not_here p lo = let e : a ≡ b.addr = sym t.0 in ground arith

  skip_lem :
      (cs : List Block) (p q n : ℕ)
      → here p ≡ false
      → used cs q ≡ (if p == q then some n else used bs q)
      → used (b ∷ cs) q ≡ (if p == q then some n else used (b ∷ bs) q)
  unfolding used here
  skip_lem cs p q n off s = elim (Bool-cases (here q)) [
    | inl on ↦ let differ : (p == q) ≡ false = ground arith in rw (on, differ) refl
    | inr no_hit ↦ rw no_hit s
  ]

  skip-Fit :
      {p : ℕ} {cs : List Block}
      → Fit size (a + header + b.size) e bs p cs
      → Fit size a e (b ∷ bs) p (b ∷ cs)
  unfolding used here
  skip-Fit {p} {cs} f = record {
    granted = f.granted;
    enough = f.enough;
    tiles = (t.0, f.tiles);
    coalesced = (and_false_mono b.is_free (head_free bs) (head_free cs) f.front c.0, f.coalesced);
    front = λ h. h;
    after = omega (arith, f.after);
    unused = rw (not_here p f.after) f.unused;
    spec = λ q. skip_lem cs p q f.granted (not_here p f.after) (f.spec q);
  }

-- What the loop returns: the first fit, or that no free block is large enough.
abbrev pub Fitted : ℕ → ℕ → ℕ → List Block → Option (ℕ × List Block) → Type 0
Fitted size a e bs none = (largest_free bs < size) ⊎ (largest_free bs ≡ 0)
Fitted size a e bs (some (p, cs)) = Fit size a e bs p cs

pub first_fit-Fitted :
    (size : ℕ) (bs : List Block) (a e : ℕ)
    → e ≤ 2 ^ 64 - 4096
    → Tiles a e bs
    → Coalesced bs
    → Fitted size a e bs (first_fit size bs)
unfolding first_fit largest_free
first_fit-Fitted size [] a e small t c = inr refl
first_fit-Fitted size (b ∷ bs) a e small t c = elim (Bool-cases (b.is_free && leb size b.size)) [
  | inl fits ↦ rw fits (carve-Fit size a e b bs (ground arith) (ground arith) t c small)
  | inr no_fit ↦ rw no_fit (
      skipped (first_fit size bs) no_fit
        (first_fit-Fitted size bs (a + header + b.size) e small t.1 c.1))
]
  where
    skipped :
        (o : Option (ℕ × List Block))
        → (b.is_free && leb size b.size) ≡ false
        → Fitted size (a + header + b.size) e bs o
        → Fitted size a e (b ∷ bs) (keep_front b o)
    skipped none no_fit f = ground arith
    skipped (some (p, cs)) no_fit f = skip-Fit size a e b bs t c f

-- What `kmalloc` promises of its result `r` for `size` bytes.
pub data Served (h : Heap) (size : ℕ) (r : ℕ × Heap) : Type 0 where
  -- a pointer that was not in use to at least as many bytes; all other blocks in use are kept
  served :
      (granted : ℕ)
      → r.0 ≢ 0
      → size ≤ granted
      → used h.heap_start r.0 ≡ none
      → ((q : ℕ) → used r.1.heap_start q ≡ (if r.0 == q then some granted else used h.heap_start q))
      → Served h size r
  -- the null pointer: no free block is large enough, and nothing changes
  refused : r ≡ (0, h) → largest_free h.heap_start < align8 size → Served h size r

kmalloc_outcome :
    (base : ℕ) (h : Heap) (size : ℕ)
    → IsValid base h
    → size ≤ align8 size
    → 0 < size
    → (size == 0) ≡ false
    → (o : Option (ℕ × List Block)) → Fitted (align8 size) base (base + h.heap_size) h.heap_start o
    → first_fit (align8 size) h.heap_start ≡ o
    → Served h size (kmalloc h size) × IsValid base (kmalloc h size).1
unfolding kmalloc
kmalloc_outcome base h size v aligned some_size pos none f e =
    rw (pos, e, kmalloc) (refused refl (omega arith), v)
kmalloc_outcome base h size v aligned some_size pos (some (p, cs)) f e =
    rw (pos, e, kmalloc)
      (
        served f.granted (omega (arith, f.after)) (omega (arith, f.enough)) f.unused f.spec,
        record {
          tiles = f.tiles;
          coalesced = f.coalesced;
          not_null = v.not_null;
          bounded = v.bounded;
        },
      )

-- In a well-formed heap, for at least one byte and at most 2 ^ 64 - 8, `kmalloc` either returns a
-- pointer that is not null and was not in use, to at least that many bytes, and leaves all other
-- blocks in use as they are; or it returns null, no free block has the aligned size, and nothing
-- changes. The heap is well formed afterwards.
pub kmalloc_lem :
    {base : ℕ} {h : Heap} (size : ℕ)
    → IsValid base h
    → 0 < size
    → size ≤ 2 ^ 64 - 8
    → Served h size (kmalloc h size) × IsValid base (kmalloc h size).1
kmalloc_lem {base} {h} size v pos small =
    kmalloc_outcome base h size v (omega arith) pos (ground arith) _
      (first_fit-Fitted (align8 size) h.heap_start base (base + h.heap_size)
        (omega (arith, v.bounded)) v.tiles v.coalesced)
      refl

wrap_outcome :
    (base : ℕ) (h : Heap) (size : ℕ)
    → IsValid base h
    → 2 ^ 64 - 8 < size
    → (size == 0) ≡ false
    → 0 < largest_free h.heap_start
    → (o : Option (ℕ × List Block)) → Fitted 0 base (base + h.heap_size) h.heap_start o
    → first_fit (align8 size) h.heap_start ≡ o
    → ((kmalloc h size).0 ≢ 0)
      × ((n : ℕ) × (used (kmalloc h size).1.heap_start (kmalloc h size).0 ≡ some n) × (n < size))
unfolding kmalloc
wrap_outcome base h size v big pos room none f e = absurd (omega arith)
wrap_outcome base h size v big pos room (some (p, cs)) f e =
    let here : used cs p ≡ some f.granted = f.spec p ∙ rw ==_refl in
    let inside = used-inside cs base (base + h.heap_size) p f.granted f.tiles here in
    rw (pos, e, kmalloc)
      (omega (arith, f.after), (f.granted, here, omega (arith, inside, v.bounded)))

-- A request of more than 2 ^ 64 - 8 bytes wraps to none in the alignment: where a block that is not
-- empty is free, `kmalloc` returns a pointer that is not null to a block of fewer bytes.
pub kmalloc_wraps :
    {base : ℕ} {h : Heap} (size : ℕ)
    → IsValid base h
    → 2 ^ 64 - 8 < size
    → size < 2 ^ 64
    → 0 < largest_free h.heap_start
    → ((kmalloc h size).0 ≢ 0)
      × ((n : ℕ) × (used (kmalloc h size).1.heap_start (kmalloc h size).0 ≡ some n) × (n < size))
kmalloc_wraps {base} {h} size v big word room =
    let none_left : align8 size ≡ 0 = omega arith in
    wrap_outcome base h size v big (ground arith) room _
      (first_fit-Fitted 0 h.heap_start base (base + h.heap_size) (omega (arith, v.bounded)) v.tiles
        v.coalesced)
      (rw none_left)
