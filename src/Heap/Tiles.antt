-- ===== src/Heap/Tiles.antt =====
-- The shape of the block list: blocks side by side from the heap's start to its end, no two
-- neighbours free; and what the list says of each pointer.
use paradox_os.Base.{
  Bool, Bool-cases, List, Option, [], arith, false, if◌then◌else◌, inl, inr, ltb, none, not, refl,
  some, ℕ, ◌&&◌, ◌+◌, ◌-◌, ◌<◌, ◌==◌, ◌^◌, ◌∷◌, ◌≡◌, ◌≤◌,
}
use paradox_os.Heap.{Block, Heap, header}

-- The blocks fill the memory from `a` to `e`, in the order of their addresses.
abbrev pub Tiles : ℕ → ℕ → List Block → Type 0
Tiles a e [] = a ≡ e
Tiles a e (b ∷ bs) = (b.addr ≡ a) × Tiles (a + header + b.size) e bs

abbrev pub head_free : List Block → Bool
head_free [] = false
head_free (b ∷ bs) = b.is_free

abbrev pub Coalesced : List Block → Type 0
Coalesced [] = Unit
Coalesced (b ∷ bs) = ((b.is_free && head_free bs) ≡ false) × Coalesced bs

-- The size of the block in use whose memory begins at `q`.
unfoldable pub used : List Block → ℕ → Option ℕ
used [] q = none
used (b ∷ bs) q = if not b.is_free && (b.addr + header == q) then some b.size else used bs q

-- The largest free block.
unfoldable pub largest_free : List Block → ℕ
largest_free [] = 0
largest_free (b ∷ bs) =
    let rest = largest_free bs in if b.is_free && ltb rest b.size then b.size else rest

-- The heap from address `base` on is filled by its blocks, and fully coalesced.
pub record IsValid (base : ℕ) (h : Heap) : Type 0 where
  pub tiles : Tiles base (base + h.heap_size) h.heap_start
  pub coalesced : Coalesced h.heap_start
  pub not_null : 0 < base
  pub bounded : base + h.heap_size ≤ 2 ^ 64 - 4096

pub Tiles-le : (bs : List Block) (a e : ℕ) → Tiles a e bs → a ≤ e
Tiles-le [] a e t = omega arith
Tiles-le (b ∷ bs) a e t = omega (arith, Tiles-le bs (a + header + b.size) e t.1)

-- No block in use lies before the start of the list.
pub used-before : (bs : List Block) (a e q : ℕ) → Tiles a e bs → q < a + header → used bs q ≡ none
unfolding used
used-before [] a e q t lt = refl
used-before (b ∷ bs) a e q t lt = ground (arith, used-before bs (a + header + b.size) e q t.1)

-- A block in use lies within the heap.
pub used-inside :
    (bs : List Block) (a e q n : ℕ)
    → Tiles a e bs
    → used bs q ≡ some n
    → (a + header ≤ q) × (q + n ≤ e)
unfolding used
used-inside [] a e q n t u = cc
used-inside (b ∷ bs) a e q n t u = elim (Bool-cases (not b.is_free && (b.addr + header == q))) [
  | inl here ↦ ground (arith, Tiles-le bs (a + header + b.size) e t.1)
  | inr there ↦
      let u' : used bs q ≡ some n = rw there at u in
      omega (arith, used-inside bs (a + header + b.size) e q n t.1 u')
]

-- Two blocks in use lie apart, with room for a header between them.
pub used-apart :
    (bs : List Block) (a e p q m n : ℕ)
    → Tiles a e bs
    → used bs p ≡ some m
    → used bs q ≡ some n
    → p < q
    → p + m + header ≤ q
unfolding used
used-apart [] a e p q m n t u w lt = cc
used-apart (b ∷ bs) a e p q m n t u w lt =
    elim (Bool-cases (not b.is_free && (b.addr + header == p))) [
      | inl first ↦ elim (Bool-cases (not b.is_free && (b.addr + header == q))) [
        | inl same ↦ absurd (ground arith)
        | inr other ↦
            let w' : used bs q ≡ some n = rw other at w in
            let i = used-inside bs (a + header + b.size) e q n t.1 w' in ground arith
      ]
      | inr later ↦
          let u' : used bs p ≡ some m = rw later at u in
          let i = used-inside bs (a + header + b.size) e p m t.1 u' in
          elim (Bool-cases (not b.is_free && (b.addr + header == q))) [
            | inl first ↦ absurd (ground arith)
            | inr other ↦ used-apart bs (a + header + b.size) e p q m n t.1 u' (rw other at w) lt
          ]
    ]
