-- ===== src/Heap/Free.antt =====
-- `kfree`: the block is free afterwards, all other blocks in use are kept, and free neighbours are
-- joined.
use paradox_os.Base.{
  ==_refl, Bool-cases, List, [], ap, arith, false, false_ne_true, if◌then◌else◌, inl, inr, none,
  refl, some, sym, true, ℕ, ◌&&◌, ◌+◌, ◌-◌, ◌<◌, ◌==◌, ◌∙◌, ◌∷◌, ◌≡◌, ◌≤◌, ◌⊎◌,
}
use paradox_os.Heap.{Block, Heap, header, absorb_next, release, join_prev, kfree}
use paradox_os.Heap.Tiles.{Tiles, head_free, Coalesced, used, IsValid, used-before, used-inside}

-- The address of the first block.
abbrev pub head_addr : List Block → ℕ
head_addr [] = 0
head_addr (b ∷ bs) = b.addr

-- Two free neighbours may stand only before the block at address `x`.
abbrev CoalescedBut : ℕ → List Block → Type 0
CoalescedBut x [] = Unit
CoalescedBut x (b ∷ bs) =
    ((b.is_free && head_free bs) ≡ true → head_addr bs ≡ x) × CoalescedBut x bs

weaken : (x : ℕ) (bs : List Block) → Coalesced bs → CoalescedBut x bs
weaken x [] c = tt
weaken x (b ∷ bs) c = ((λ h. absurd (false_ne_true (sym c.0 ∙ h))), weaken x bs c.1)

-- No block of the list stands at `x`.
pub join_prev-before :
    (x a e : ℕ) (b : Block) (bs : List Block) → Tiles a e bs → x < a → join_prev x (b ∷ bs) ≡ b ∷ bs
unfolding join_prev
join_prev-before x a e b [] t lt = refl
join_prev-before x a e b (n ∷ bs) t lt =
    let off : (n.addr == x) ≡ false = ground arith in
    rw off (ap (λ r. b ∷ r) (join_prev-before x (a + header + n.size) e n bs t.1 (omega arith)))

-- The walk past a block that is in use.
join_prev-past :
    (x : ℕ) (b : Block) (bs : List Block)
    → b.is_free ≡ false
    → join_prev x (b ∷ bs) ≡ b ∷ (if head_addr bs == x then bs else join_prev x bs)
unfolding join_prev
join_prev-past x b [] taken = ground arith
join_prev-past x b (n ∷ bs) taken = ground arith

-- Behind `x` no exception is left.
strengthen :
    (x a e : ℕ) (b : Block) (bs : List Block)
    → Tiles a e bs
    → x < a
    → CoalescedBut x (b ∷ bs)
    → Coalesced (b ∷ bs)
strengthen x a e b [] t lt c = (ground arith, tt)
strengthen x a e b (n ∷ bs) t lt c = (
  elim (Bool-cases (b.is_free && n.is_free)) [
    | inl both ↦ absurd (omega (arith, c.0 both, t.0))
    | inr apart ↦ apart
  ],
  strengthen x (a + header + n.size) e n bs t.1 (omega arith) c.1,
)

-- What `release` does to the shape, where a block stands at `x` or none does.
module _ (x : ℕ) where
  absorb_next-Tiles :
      (a e : ℕ) (b : Block) (bs : List Block) → Tiles a e (b ∷ bs) → Tiles a e (absorb_next b bs)
  unfolding absorb_next
  absorb_next-Tiles a e b [] t = t
  absorb_next-Tiles a e b (n ∷ bs) t = elim (Bool-cases n.is_free) [
    | inl free ↦
        let whole : a + header + (b.size + header + n.size)
            ≡ a + header + b.size + header + n.size =
          omega arith in
        rw free (t.0, rw whole t.1.1)
    | inr taken ↦ rw taken t
  ]

  pub release-Tiles : (bs : List Block) (a e : ℕ) → Tiles a e bs → Tiles a e (release x bs)
  unfolding release
  release-Tiles [] a e t = t
  release-Tiles (b ∷ bs) a e t = elim (Bool-cases (b.addr == x)) [
    | inl here ↦ rw here (absorb_next-Tiles a e (record b { is_free = true }) bs t)
    | inr there ↦ rw there (t.0, release-Tiles bs (a + header + b.size) e t.1)
  ]

  used-absorb_next :
      (b : Block) (bs : List Block) (q : ℕ)
      → b.is_free ≡ true
      → used (absorb_next b bs) q ≡ used bs q
  unfolding absorb_next used
  used-absorb_next b [] q free = rw free
  used-absorb_next b (n ∷ bs) q free = ground arith

  used-release :
      (bs : List Block) (a e q : ℕ)
      → Tiles a e bs
      → used (release x bs) q ≡ (if x + header == q then none else used bs q)
  unfolding release used
  used-release [] a e q t = ground arith
  used-release (b ∷ bs) a e q t = elim (Bool-cases (b.addr == x)) [
    | inl here ↦
        rw (here, used-absorb_next (record b { is_free = true }) bs q refl)
          (ground (arith, used-before bs (a + header + b.size) e q t.1))
    | inr there ↦ rw there (ground (arith, used-release bs (a + header + b.size) e q t.1))
  ]

  absorb_next-CoalescedBut :
      (b : Block) (bs : List Block) → Coalesced bs → CoalescedBut x (absorb_next b bs)
  unfolding absorb_next
  absorb_next-CoalescedBut b [] c = (λ h. ground arith, tt)
  absorb_next-CoalescedBut b (n ∷ bs) c = elim (Bool-cases n.is_free) [
    | inl free ↦ rw free (λ h. ground arith, weaken x bs c.1)
    | inr taken ↦ simp taken ((λ h. ground arith), ((λ h. ground arith), weaken x bs c.1))
  ]

  pub head_addr-release : (bs : List Block) → head_addr (release x bs) ≡ head_addr bs
  unfolding release absorb_next
  head_addr-release [] = refl
  head_addr-release (b ∷ []) = ground arith
  head_addr-release (b ∷ (n ∷ bs)) = ground arith

  head_free-release :
      (bs : List Block)
      → head_free (release x bs) ≡ true
      → (head_free bs ≡ true) ⊎ (head_addr bs ≡ x)
  unfolding release absorb_next
  head_free-release [] h = cc
  head_free-release (b ∷ []) h = ground arith
  head_free-release (b ∷ (n ∷ bs)) h = ground arith

  release-CoalescedBut : (bs : List Block) → Coalesced bs → CoalescedBut x (release x bs)
  unfolding release
  release-CoalescedBut [] c = tt
  release-CoalescedBut (b ∷ bs) c = elim (Bool-cases (b.addr == x)) [
    | inl here ↦ rw here (absorb_next-CoalescedBut (record b { is_free = true }) bs c.1)
    | inr there ↦ rw there (
      (λ h. head_addr-release bs ∙ elim (head_free-release bs (ground arith)) [
        | inl free ↦ absurd (false_ne_true (sym c.0 ∙ ground arith))
        | inr at ↦ at
      ]),
      release-CoalescedBut bs c.1,
    )
  ]

  -- Joining with the block before, where the block at `x` is free.
  join_prev-Tiles : (bs : List Block) (a e : ℕ) → Tiles a e bs → Tiles a e (join_prev x bs)
  unfolding join_prev
  join_prev-Tiles [] a e t = t
  join_prev-Tiles (b ∷ []) a e t = t
  join_prev-Tiles (b ∷ (n ∷ bs)) a e t = elim (Bool-cases (n.addr == x)) [
    | inl here ↦ rw here (elim (Bool-cases b.is_free) [
      | inl free ↦
          let whole : a + header + (b.size + header + n.size)
              ≡ a + header + b.size + header + n.size =
            omega arith in
          simp free (t.0, rw whole t.1.1)
      | inr taken ↦ simp taken t
    ])
    | inr there ↦ rw there (t.0, join_prev-Tiles (n ∷ bs) (a + header + b.size) e t.1)
  ]

  used-join_prev :
      (bs : List Block) (a e q : ℕ)
      → Tiles a e bs
      → used bs (x + header) ≡ none
      → used (join_prev x bs) q ≡ used bs q
  unfolding join_prev used
  used-join_prev [] a e q t u = refl
  used-join_prev (b ∷ []) a e q t u = refl
  used-join_prev (b ∷ (n ∷ bs)) a e q t u = elim (Bool-cases (n.addr == x)) [
    | inl here ↦ rw here (ground arith)
    | inr there ↦ rw there (ground (arith, used-join_prev (n ∷ bs) (a + header + b.size) e q t.1))
  ]

  head_free-join_prev : (bs : List Block) → head_free (join_prev x bs) ≡ head_free bs
  unfolding join_prev
  head_free-join_prev [] = refl
  head_free-join_prev (b ∷ []) = refl
  head_free-join_prev (b ∷ (n ∷ bs)) = ground arith

  join_prev-Coalesced :
      (bs : List Block) (a e : ℕ)
      → Tiles a e bs
      → used bs (x + header) ≡ none
      → CoalescedBut x bs
      → Coalesced (join_prev x bs)
  unfolding join_prev used
  join_prev-Coalesced [] a e t u c = tt
  join_prev-Coalesced (b ∷ []) a e t u c = (ground arith, tt)
  join_prev-Coalesced (b ∷ (n ∷ bs)) a e t u c = elim (Bool-cases (n.addr == x)) [
    | inl here ↦
        let behind : x < a + header + b.size + header + n.size = ground arith in
        let rest = strengthen x (a + header + b.size + header + n.size) e n bs t.1.1 behind c.1 in
        let n_free : n.is_free ≡ true = ground arith in
        rw here (elim (Bool-cases b.is_free) [
          | inl free ↦ simp free (ground (arith, rest), rest.1)
          | inr taken ↦ simp taken (refl, rest)
        ])
    | inr there ↦
        let u' : used (n ∷ bs) (x + header) ≡ none = ground arith in
        rw there (
          rw (head_free-join_prev (n ∷ bs)) (ground (arith, c.0)),
          join_prev-Coalesced (n ∷ bs) (a + header + b.size) e t.1 u' c.1,
        )
  ]

-- What `kfree` promises: the pointer is in use no more, and all other blocks in use are kept.
abbrev pub Released : Heap → ℕ → Heap → Type 0
Released h p h' = (q : ℕ) → used h'.heap_start q ≡ (if p == q then none else used h.heap_start q)

-- The pointer has room for a header before it.
pub kfree-IsValid :
    {base : ℕ} {h : Heap} (p : ℕ)
    → IsValid base h
    → header ≤ p
    → Released h p (kfree h p) × IsValid base (kfree h p)
unfolding kfree
kfree-IsValid {base} {h} p v lo =
    let x = p - header in
    let end = base + h.heap_size in
    let t = release-Tiles x h.heap_start base end v.tiles in
    let some_pointer : (p == 0) ≡ false = ground arith in
    let back : x + header ≡ p = omega arith in
    let u : used (release x h.heap_start) (x + header) ≡ none =
      used-release x h.heap_start base end (x + header) v.tiles ∙ rw ==_refl in
    rw some_pointer (
      (λ q.
          used-join_prev x (release x h.heap_start) base end q t u
          ∙ used-release x h.heap_start base end q v.tiles
          ∙ rw back),
      record {
        tiles = join_prev-Tiles x (release x h.heap_start) base end t;
        coalesced =
            join_prev-Coalesced x (release x h.heap_start) base end t u
              (release-CoalescedBut x h.heap_start v.coalesced);
        not_null = v.not_null;
        bounded = v.bounded;
      },
    )

-- In a well-formed heap, `kfree` of a block in use frees exactly this block: every other block in use
-- is kept, and the heap is well formed afterwards, with all free neighbours joined. `kfree` of the null
-- pointer changes nothing.
pub kfree_lem :
    {base : ℕ} {h : Heap} (p n : ℕ)
    → IsValid base h
    → used h.heap_start p ≡ some n
    → (Released h p (kfree h p) × IsValid base (kfree h p)) × (kfree h 0 ≡ h)
unfolding kfree
kfree_lem {base} {h} p n v u =
    let within = used-inside h.heap_start base (base + h.heap_size) p n v.tiles u in
    let behind : header ≤ p = omega (arith, within.0) in (kfree-IsValid p v behind, refl)
