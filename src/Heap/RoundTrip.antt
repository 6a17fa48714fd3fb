-- ===== src/Heap/RoundTrip.antt =====
-- Freeing what was just allocated.
use paradox_os.Base.{
  ==_refl, Bool-cases, List, Option, [], ap, arith, false, inl, inr, leb, leb→le, none, refl, some,
  sym, true, ℕ, ◌%◌, ◌&&◌, ◌+◌, ◌-◌, ◌<◌, ◌==◌, ◌^◌, ◌∙◌, ◌∷◌, ◌≡◌, ◌≢◌, ◌≤◌,
}
use paradox_os.Heap.{
  Block, Heap, header, align8, carve, keep_front, first_fit, kmalloc, merge, absorb_next, release,
  join_prev, kfree,
}
use paradox_os.Heap.Tiles.{Tiles, head_free, Coalesced, IsValid, Tiles-le}
use paradox_os.Heap.Malloc.{Fitted, first_fit-Fitted}
use paradox_os.Heap.Free.{head_addr, head_addr-release, release-Tiles, join_prev-before}

-- Freeing the block at `x` in `cs` gives `bs`, and if that block comes first, `bs` begins free.
record Undone (x : ℕ) (bs cs : List Block) : Type 0 where
  undone : join_prev x (release x cs) ≡ bs
  front_free : head_addr cs ≡ x → head_free bs ≡ true

join_prev-skip :
    (x a e : ℕ) (b : Block) (cs bs : List Block)
    → Tiles a e cs
    → (head_addr cs ≡ x → b.is_free ≡ false)
    → join_prev x cs ≡ bs
    → join_prev x (b ∷ cs) ≡ b ∷ bs
unfolding join_prev
join_prev-skip x a e b [] bs t apart h = ap (λ r. b ∷ r) h
join_prev-skip x a e b (n ∷ cs) bs t apart h = elim (Bool-cases (n.addr == x)) [
  | inl here ↦
      let same : n ∷ cs ≡ bs =
        sym (join_prev-before x (a + header + n.size) e n cs t.1 (ground arith)) ∙ h in
      let taken : b.is_free ≡ false = apart (ground arith) in
      rw here (simp taken (ap (λ r. b ∷ r) same))
  | inr there ↦ rw there (ap (λ r. b ∷ r) h)
]

-- A block whose next block is in use absorbs nothing.
absorbed_nothing :
    (x : ℕ) (b : Block) (bs : List Block)
    → head_free bs ≡ false
    → join_prev x (absorb_next b bs) ≡ join_prev x (b ∷ bs)
unfolding absorb_next
absorbed_nothing x b [] taken = refl
absorbed_nothing x b (n ∷ bs) taken = simp taken

module _ (size a e : ℕ) (b : Block) (bs : List Block) (free : b.is_free ≡ true)
    (fits : size ≤ b.size) (t : Tiles a e (b ∷ bs)) (c : Coalesced (b ∷ bs))
    (small : e ≤ 2 ^ 64 - 4096) where
  regrown :
      leb ((size + header + 8) % 2 ^ 64) b.size ≡ true
      → merge
          (record b { size = size; is_free = true })
          (record { addr = b.addr + header + size; size = b.size - size - header; is_free = true })
        ≡ b
  regrown split =
      let room : (size + header + 8) % 2 ^ 64 ≤ b.size = leb→le _ _ split in
      let end : a + header + b.size ≤ e = Tiles-le bs _ e t.1 in
      let whole : size + header + (b.size - size - header) ≡ b.size = omega arith in ground arith

  absorb_next-rest :
      leb ((size + header + 8) % 2 ^ 64) b.size ≡ true
      → absorb_next
          (record b { size = size; is_free = true })
          (record { addr = b.addr + header + size; size = b.size - size - header; is_free = true }
            ∷ bs)
        ≡ b ∷ bs
  unfolding absorb_next
  absorb_next-rest split = ap (λ r. r ∷ bs) (regrown split)

  freed_again : record b { is_free = true } ≡ b
  freed_again = ground arith

  behind : b.addr < a + header + b.size
  behind = omega (arith, t.0)

  absorb_next-carve : join_prev b.addr (release b.addr (carve size b bs)) ≡ b ∷ bs
  unfolding carve release
  absorb_next-carve = elim (Bool-cases (leb ((size + header + 8) % 2 ^ 64) b.size)) [
    | inl split ↦
        rw (split, carve, ==_refl, absorb_next-rest split)
          (join_prev-before b.addr (a + header + b.size) e b bs t.1 behind)
    | inr whole ↦
        rw (whole, carve, ==_refl, freed_again)
          (absorbed_nothing b.addr b bs (ground arith)
            ∙ join_prev-before b.addr (a + header + b.size) e b bs t.1 behind)
  ]

  carve-Undone : Undone b.addr (b ∷ bs) (carve size b bs)
  carve-Undone = record { undone = absorb_next-carve; front_free = λ h. free }

-- Past a block that the search skipped.
skip-Undone :
    (a e : ℕ) (b : Block) (bs cs : List Block) (x : ℕ)
    → 0 < a
    → Coalesced (b ∷ bs)
    → Tiles a e (b ∷ cs)
    → a + header + b.size ≤ x
    → Undone x bs cs
    → Undone x (b ∷ bs) (b ∷ cs)
unfolding release
skip-Undone a e b bs cs x pos c t lo u =
    let there : (b.addr == x) ≡ false = ground arith in
    record {
      undone = rw there (
          join_prev-skip x (a + header + b.size) e b (release x cs) bs
            (release-Tiles x cs (a + header + b.size) e t.1)
            (λ h.
              let first : head_addr cs ≡ x = sym (head_addr-release x cs) ∙ h in
              ground (arith, u.front_free first, c.0))
            u.undone);
      front_free = λ h. absurd (ground arith);
    }

abbrev UndoneBy : ℕ → List Block → Option (ℕ × List Block) → Type 0
UndoneBy a bs none = Unit
UndoneBy a bs (some (p, cs)) = Undone (p - header) bs cs

first_fit-UndoneBy :
    (size : ℕ) (bs : List Block) (a e : ℕ)
    → 0 < a
    → e ≤ 2 ^ 64 - 4096
    → Tiles a e bs
    → Coalesced bs
    → UndoneBy a bs (first_fit size bs)
unfolding first_fit
first_fit-UndoneBy size [] a e pos small t c = tt
first_fit-UndoneBy size (b ∷ bs) a e pos small t c =
    elim (Bool-cases (b.is_free && leb size b.size)) [
      | inl fits ↦
          let same : b.addr + header - header ≡ b.addr = omega arith in
          rw (fits, same) (carve-Undone size a e b bs (ground arith) (ground arith) t c small)
      | inr no_fit ↦ rw no_fit (
          skipped (first_fit size bs)
            (first_fit-Fitted size bs (a + header + b.size) e small t.1 c.1)
            (first_fit-UndoneBy size bs (a + header + b.size) e (omega arith) small t.1 c.1))
    ]
  where
    skipped :
        (o : Option (ℕ × List Block))
        → Fitted size (a + header + b.size) e bs o
        → UndoneBy (a + header + b.size) bs o
        → UndoneBy a (b ∷ bs) (keep_front b o)
    skipped none f u = tt
    skipped (some (p, cs)) f u =
        skip-Undone a e b bs cs (p - header) pos c (t.0, f.tiles) (omega (arith, f.after)) u

null_for_none : (h : Heap) (size : ℕ) → (size == 0) ≡ true → (kmalloc h size).0 ≡ 0
unfolding kmalloc
null_for_none h size e = rw e

round_trip :
    {base : ℕ} {h : Heap} (size : ℕ)
    → IsValid base h
    → (size == 0) ≡ false
    → (o : Option (ℕ × List Block)) → Fitted (align8 size) base (base + h.heap_size) h.heap_start o
    → UndoneBy base h.heap_start o
    → first_fit (align8 size) h.heap_start ≡ o
    → (kmalloc h size).0 ≢ 0
    → kfree (kmalloc h size).1 (kmalloc h size).0 ≡ h
unfolding kmalloc kfree
round_trip size v pos none f u e ne = absurd (ne (rw (pos, e, kmalloc)))
round_trip {h} size v pos (some (p, cs)) f u e ne =
    let some_pointer : (p == 0) ≡ false = ground (arith, f.after) in
    rw (pos, e, kmalloc) (rw some_pointer (ap (λ bs. record h { heap_start = bs }) u.undone))

-- In a well-formed heap, freeing the pointer that `kmalloc` just returned, if it is not null, gives
-- back the very same heap.
pub kfree-kmalloc :
    {base : ℕ} {h : Heap} (size : ℕ)
    → IsValid base h
    → (kmalloc h size).0 ≢ 0
    → kfree (kmalloc h size).1 (kmalloc h size).0 ≡ h
kfree-kmalloc {base} {h} size v ne = elim (Bool-cases (size == 0)) [
  | inl none_asked ↦ absurd (ne (null_for_none h size none_asked))
  | inr pos ↦
      round_trip size v pos _
        (first_fit-Fitted (align8 size) h.heap_start base (base + h.heap_size)
          (omega (arith, v.bounded)) v.tiles v.coalesced)
        (first_fit-UndoneBy (align8 size) h.heap_start base (base + h.heap_size) v.not_null
          (omega (arith, v.bounded)) v.tiles v.coalesced)
        refl ne
]
