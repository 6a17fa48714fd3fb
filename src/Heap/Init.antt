-- ===== src/Heap/Init.antt =====
-- `heap_init`: the heap that it makes of pages from the physical memory manager.
use paradox_os.Base.{
  ==_iff, ==_ne, Bool-cases, [], ap, arith, false, if◌then◌else◌, inl, inr, ltb, ltb→le, refl, suc,
  true, zero, ℕ, ◌*◌, ◌+◌, ◌-◌, ◌/◌, ◌<◌, ◌==◌, ◌^◌, ◌∷◌, ◌≡◌, ◌≢◌, ◌≤◌, ◌⊎◌,
}
use native.Mathlib.Nat.{pow-suc}
use paradox_os.Pmm.{Pmm, pmm_alloc_contiguous}
use paradox_os.Pmm.Bitmap
use paradox_os.Pmm.Contiguous.{IsFreeRun, run, no_run, pmm_alloc_contiguous_lem}
use paradox_os.Heap.{Heap, header, halve_until, heap_init}
use paradox_os.Heap.Tiles.{IsValid}

-- What the search for pages returns: an address of pages, or null.
record Pages (s : Pmm) (r : ℕ × ℕ × Pmm) : Type 0 where
  valid : Bitmap.IsValid r.2
  many : r.0 ≢ 0 → 16 ≤ r.1
  fits : r.0 ≢ 0 → r.0 + r.1 * 4096 ≤ 2 ^ 64 - 4096

one_request :
    {s : Pmm} (n : ℕ)
    → Bitmap.IsValid s
    → 16 ≤ n
    → ((pmm_alloc_contiguous s n).0 + n * 4096 ≤ 2 ^ 64 - 4096) ⊎ ((pmm_alloc_contiguous s n).0 ≡ 0)
one_request {s} n v many = elim (pmm_alloc_contiguous_lem n v (omega arith)).0 [
  | run k e pos fits free first marked added ↦ inl (omega (arith, v.small))
  | no_run e none_fits ↦ inr (ap (λ (r : ℕ × Pmm). r.0) e)
]

halve_until-Pages : (fuel : ℕ) (s : Pmm) (n : ℕ) → Bitmap.IsValid s → Pages s (halve_until fuel s n)
unfolding halve_until
halve_until-Pages zero s n v = record {
  valid = v;
  many = λ h. absurd (h refl);
  fits = λ h. absurd (h refl);
}
halve_until-Pages (suc fuel) s n v = elim (Bool-cases (ltb n 16)) [
  | inl small ↦
      rw small (record { valid = v; many = λ h. absurd (h refl); fits = λ h. absurd (h refl) })
  | inr large ↦
      let lemma = pmm_alloc_contiguous_lem n v (omega (arith, ltb→le n 16 large)) in
      rw large (elim (Bool-cases ((pmm_alloc_contiguous s n).0 == 0)) [
        | inl null ↦
            let p = halve_until-Pages fuel (pmm_alloc_contiguous s n).1 (n / 2) lemma.1 in
            rw null (record { valid = p.valid; many = p.many; fits = p.fits })
        | inr some_base ↦ rw some_base (record {
          valid = lemma.1;
          many = λ h. ltb→le n 16 large;
          fits =
              λ h. elim (one_request n v (ltb→le n 16 large)) [ inl f ↦ f | inr z ↦ absurd (h z) ];
        })
      ])
]

-- Enough fuel: with `n < 16 * 2 ^ k` the loop ends within `k + 1` rounds, and more fuel changes nothing.
halve_until-enough :
    (k f g : ℕ) (s : Pmm) (n : ℕ)
    → n < 16 * 2 ^ k
    → k < f
    → k < g
    → halve_until f s n ≡ halve_until g s n
unfolding halve_until
halve_until-enough k zero g s n lt hf hg = absurd (omega arith)
halve_until-enough k (suc f) zero s n lt hf hg = absurd (omega arith)
halve_until-enough zero (suc f) (suc g) s n lt hf hg =
    let small : ltb n 16 ≡ true = ground arith in rw small
halve_until-enough (suc k) (suc f) (suc g) s n lt hf hg =
    let less : n < 2 * (16 * 2 ^ k) = omega (arith, pow-suc 2 k) in
    rw (
      halve_until-enough k f g (pmm_alloc_contiguous s n).1 (n / 2) (omega arith) (omega arith)
        (omega arith))

-- The twelve rounds that `heap_init` is given are enough.
twelve_rounds : (f : ℕ) (s : Pmm) → 12 ≤ f → halve_until f s 2048 ≡ halve_until 12 s 2048
twelve_rounds f s h = halve_until-enough 8 f 12 s 2048 (omega arith) (omega arith) (omega arith)

pow_pos : (k : ℕ) → 0 < 2 ^ k
pow_pos zero = omega arith
pow_pos (suc k) = omega (arith, pow-suc 2 k, pow_pos k)

lt→ltb_false : (a b : ℕ) → b ≤ a → ltb a b ≡ false
lt→ltb_false a b h = ground arith

-- A request that finds nothing leaves the state as it is, and there was no run to find.
not_found :
    {s : Pmm} (n : ℕ)
    → Bitmap.IsValid s
    → 0 < n
    → (pmm_alloc_contiguous s n).0 ≡ 0
    → ((pmm_alloc_contiguous s n).1 ≡ s)
      × ((k : ℕ) → 0 < k → k + n ≤ s.total_pages → ¬ IsFreeRun s n k)
not_found n v pos null = elim (pmm_alloc_contiguous_lem n v pos).0 [
  | run k e lo fits free first marked added ↦ absurd (omega arith)
  | no_run e none_fits ↦ (ap (λ (r : ℕ × Pmm). r.1) e, none_fits)
]

-- The halving goes down to 16 pages, so it finds no address only if there is no run of 16.
halve_until-null :
    (k fuel : ℕ) {s : Pmm}
    → Bitmap.IsValid s
    → k < fuel
    → (halve_until fuel s (16 * 2 ^ k)).0 ≡ 0
    → (j : ℕ) → 0 < j
    → j + 16 ≤ s.total_pages
    → ¬ IsFreeRun s 16 j
unfolding halve_until
halve_until-null k zero v lt null = absurd (omega arith)
halve_until-null zero (suc fuel) {s} v lt null =
    elim (Bool-cases ((pmm_alloc_contiguous s 16).0 == 0)) [
      | inl none_found ↦ (not_found 16 v (omega arith) (ground arith)).1
      | inr some_base ↦ absurd (ground arith)
    ]
halve_until-null (suc k) (suc fuel) {s} v lt null =
    let twice : 16 * 2 ^ suc k ≡ 2 * (16 * 2 ^ k) = omega (arith, pow-suc 2 k) in
    let half : 2 * (16 * 2 ^ k) / 2 ≡ 16 * 2 ^ k = omega arith in
    let pos : 0 < 16 * 2 ^ k = grind (arith, pow_pos k) in
    let large : ltb (2 * (16 * 2 ^ k)) 16 ≡ false = lt→ltb_false _ _ (grind (arith, pow_pos k)) in
    let null' : (halve_until (suc fuel) s (2 * (16 * 2 ^ k))).0 ≡ 0 = rw twice at null in
    elim (Bool-cases ((pmm_alloc_contiguous s (2 * (16 * 2 ^ k))).0 == 0)) [
      | inl none_found ↦
          let same = (not_found (2 * (16 * 2 ^ k)) v (omega arith) ((==_iff _ _).0 none_found)).0 in
          halve_until-null k fuel v (omega arith) (rw (large, none_found, same, half) at null')
      | inr some_base ↦ absurd (==_ne _ _ some_base (rw (large, some_base) at null'))
    ]

-- The heap that the pages found make, or the old heap for the reason `Why`.
abbrev pub SetUp : Type 0 → Heap → Heap × Pmm → Type 0
SetUp Why h r =
    (((r.0 ≡ h) × Why) ⊎ ((base : ℕ) × IsValid base r.0 × (16 * 4096 ≤ r.0.heap_size)))
    × Bitmap.IsValid r.1

-- `n` pages in a row are free nowhere after page 0.
abbrev pub NoFreeRun : ℕ → Pmm → Type 0
NoFreeRun n s = (k : ℕ) → 0 < k → k + n ≤ s.total_pages → ¬ IsFreeRun s n k

start_heap : Heap → ℕ × ℕ × Pmm → Heap × Pmm
start_heap h (base, n, t) = if base == 0 then (h, t) else (
  record h {
    heap_start = record { addr = base; size = n * 4096 - header; is_free = true } ∷ [];
    heap_size = n * 4096;
  },
  t,
)

start_heap-SetUp :
    (Why : Type 0) (h : Heap) {s : Pmm} (r : ℕ × ℕ × Pmm)
    → Pages s r
    → (r.0 ≡ 0 → Why)
    → SetUp Why h (start_heap h r)
unfolding start_heap
start_heap-SetUp Why h (base, n, t) p why = elim (Bool-cases (base == 0)) [
  | inl null ↦ rw null (inl (refl, why (ground arith)), p.valid)
  | inr some_base ↦
      let ne : base ≢ 0 = ==_ne base 0 some_base in
      let many : 16 ≤ n = p.many ne in
      rw some_base (
        inr (
          base,
          record {
            tiles = (refl, omega arith);
            coalesced = (refl, tt);
            not_null = omega arith;
            bounded = p.fits ne;
          },
          omega arith,
        ),
        p.valid,
      )
]

first_request-Pages :
    {s : Pmm}
    → Bitmap.IsValid s
    → (pmm_alloc_contiguous s 4096).0 ≢ 0
    → Pages s ((pmm_alloc_contiguous s 4096).0, 4096, (pmm_alloc_contiguous s 4096).1)
first_request-Pages v ne = record {
  valid = (pmm_alloc_contiguous_lem 4096 v (omega arith)).1;
  many = λ h. omega arith;
  fits = λ h. elim (one_request 4096 v (omega arith)) [ inl f ↦ f | inr z ↦ absurd (ne z) ];
}

-- From a physical memory manager whose accounting is valid, `heap_init` sets up a well-formed heap of
-- at least 16 pages; or it leaves the heap as it is, and then no 16 pages in a row are free after
-- page 0. The accounting of the physical memory manager is valid afterwards.
pub heap_init_lem :
    (h : Heap) {s : Pmm} → Bitmap.IsValid s → SetUp (NoFreeRun 16 s) h (heap_init h s)
unfolding heap_init start_heap
heap_init_lem h {s} v =
    let lemma = pmm_alloc_contiguous_lem 4096 v (omega arith) in
    elim (Bool-cases ((pmm_alloc_contiguous s 4096).0 == 0)) [
      | inl null ↦
          let same = (not_found 4096 v (omega arith) ((==_iff _ _).0 null)).0 in
          rw (null, same)
            (start_heap-SetUp (NoFreeRun 16 s) h (halve_until 12 s 2048)
              (halve_until-Pages 12 s 2048 v) (λ z. halve_until-null 7 12 v (omega arith) z))
      | inr some_base ↦ rw some_base (
          start_heap-SetUp (NoFreeRun 16 s) h _ (first_request-Pages v (==_ne _ _ some_base))
            (λ z. absurd (==_ne _ _ some_base z)))
    ]
