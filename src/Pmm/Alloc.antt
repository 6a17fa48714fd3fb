-- ===== src/Pmm/Alloc.antt =====
-- `pmm_alloc_page` and `pmm_free_page`: what they return and change, and the accounting.
use paradox_os.Base.{
  Bool-cases, Option, arith, false, if◌then◌else◌, inl, inr, leb, none, refl, some, suc, true, zero,
  ℕ, ◌*◌, ◌+◌, ◌-◌, ◌/◌, ◌<◌, ◌==◌, ◌∙◌, ◌≡◌, ◌≢◌, ◌≤◌, ◌⊎◌,
}
use paradox_os.Pmm.{
  Pmm, bitmap_test, take_page, find_free, pmm_alloc_page, pmm_free_page, page_addr,
  pmm_get_used_memory, pmm_get_free_memory, pmm_get_managed_memory,
}
use paradox_os.Pmm.Count.{count-le}
use paradox_os.Pmm.Bitmap.{
  IsValid, bitmap_test-take_page, bitmap_test-release_page, take_page-IsValid, release_page-IsValid,
  used-take_page, used-release_page, release_page-take_page, total-take_page,
}

-- What the search returns: the first free page at or after `i`, or that all are used.
abbrev Found : Pmm → ℕ → ℕ → Option ℕ → Type 0
Found s i to none = (j : ℕ) → i ≤ j → j < to → bitmap_test s j ≡ true
Found s i to (some k) =
    (i ≤ k)
    × (k < to)
    × (bitmap_test s k ≡ false)
    × ((j : ℕ) → i ≤ j → j < k → bitmap_test s j ≡ true)

Found-step :
    (s : Pmm) (i to : ℕ)
    → bitmap_test s i ≡ true
    → (o : Option ℕ) → Found s (i + 1) to o
    → Found s i to o
Found-step s i to used none f = λ j lo hi. elim (Bool-cases (i == j)) [
  | inl e ↦ let e' : i ≡ j = ground arith in rw (← e') used
  | inr ne ↦ f j (ground arith) hi
]
Found-step s i to used (some k) (lo, hi, off, before) = (
  omega arith,
  hi,
  off,
  λ j l h. elim (Bool-cases (i == j)) [
    | inl e ↦ let e' : i ≡ j = ground arith in rw (← e') used
    | inr ne ↦ before j (ground arith) h
  ],
)

find_free-Found :
    (s : Pmm) (rounds i to : ℕ) → i + rounds ≡ to → Found s i to (find_free s rounds i)
unfolding find_free
find_free-Found s zero i to e = λ j lo hi. absurd (omega arith)
find_free-Found s (suc rounds) i to e = elim (Bool-cases (bitmap_test s i)) [
  | inl used ↦ rw used (
      Found-step s i to used (find_free s rounds (i + 1))
        (find_free-Found s rounds (i + 1) to (omega arith)))
  | inr off ↦ rw off (omega arith, omega arith, off, λ j lo hi. absurd (omega arith))
]

-- The two outcomes of `pmm_alloc_page`.
abbrev AllocFails : Pmm → Type 0
AllocFails s =
    ((j : ℕ) → 0 < j → j < s.total_pages → bitmap_test s j ≡ true) × (pmm_alloc_page s ≡ (0, s))

abbrev AllocTakes : Pmm → ℕ → Type 0
AllocTakes s i =
    (0 < i)
    × (i < s.total_pages)
    × (bitmap_test s i ≡ false)
    × ((j : ℕ) → 0 < j → j < i → bitmap_test s j ≡ true)
    × (pmm_alloc_page s ≡ (i * 4096, take_page s i))

alloc_outcome :
    {s : Pmm}
    → IsValid s
    → (o : Option ℕ) → Found s 1 (1 + (s.total_pages - 1)) o
    → find_free s (s.total_pages - 1) 1 ≡ o
    → AllocFails s ⊎ ((i : ℕ) × AllocTakes s i)
unfolding pmm_alloc_page
alloc_outcome {s} v none f e = inl ((λ j lo hi. f j lo (omega arith)), rw (e, pmm_alloc_page))
alloc_outcome {s} v (some i) (lo, hi, off, before) e =
    let addr : page_addr i ≡ i * 4096 = omega (arith, v.small) in
    inr (i, (omega arith, omega arith, off, before, rw (e, pmm_alloc_page) (rw addr)))

pub pmm_alloc_page_cases : {s : Pmm} → IsValid s → AllocFails s ⊎ ((i : ℕ) × AllocTakes s i)
pmm_alloc_page_cases {s} v = alloc_outcome v _ (find_free-Found s (s.total_pages - 1) 1 _ refl) refl

-- What `pmm_alloc_page` promises of its result `r` in the state `s`.
pub data Allocated (s : Pmm) (r : ℕ × Pmm) : Type 0 where
  -- the first free page after page 0: it was free, it is used, nothing else changes
  page :
      (i : ℕ)
      → r.0 ≡ i * 4096
      → 0 < i
      → i < s.total_pages
      → bitmap_test s i ≡ false
      → ((j : ℕ) → 0 < j → j < i → bitmap_test s j ≡ true)
      → ((j : ℕ) → bitmap_test r.1 j ≡ (if i == j then true else bitmap_test s j))
      → r.1.used_pages ≡ s.used_pages + 1
      → Allocated s r
  -- the null pointer: no page after page 0 is free, and nothing changes
  full : r ≡ (0, s) → ((j : ℕ) → 0 < j → j < s.total_pages → bitmap_test s j ≡ true) → Allocated s r

-- From a state whose accounting is valid, `pmm_alloc_page` either takes the first free page after
-- page 0, which it marks and counts, and no other page changes; or it returns null, no page after
-- page 0 is free, and nothing changes. The accounting is valid afterwards.
pub pmm_alloc_page_lem :
    {s : Pmm} → IsValid s → Allocated s (pmm_alloc_page s) × IsValid (pmm_alloc_page s).1
pmm_alloc_page_lem {s} v = elim (pmm_alloc_page_cases v) [
  | inl (used, e) ↦ rw e (full refl used, v)
  | inr (i, (lo, hi, off, before, e)) ↦ rw e (
    page i refl lo hi off before (bitmap_test-take_page v i hi) (used-take_page v i hi off),
    take_page-IsValid v i hi off,
  )
]

-- What `pmm_free_page` promises of the state `t` it leaves, where `i` is the page of the address.
pub data Freed (s : Pmm) (i : ℕ) (t : Pmm) : Type 0 where
  -- a used page becomes free, and nothing else changes
  freed :
      i < s.total_pages
      → bitmap_test s i ≡ true
      → ((j : ℕ) → bitmap_test t j ≡ (if i == j then false else bitmap_test s j))
      → s.used_pages ≡ t.used_pages + 1
      → Freed s i t
  invalid : s.total_pages ≤ i → t ≡ s → Freed s i t
  double_free : bitmap_test s i ≡ false → t ≡ s → Freed s i t

-- From a state whose accounting is valid, `pmm_free_page` frees the page of the address if that page
-- is used; an address out of range and a page that is free already change nothing. The accounting
-- is valid afterwards.
pub pmm_free_page_lem :
    {s : Pmm} (a : ℕ)
    → IsValid s
    → Freed s (a / 4096) (pmm_free_page s a) × IsValid (pmm_free_page s a)
unfolding pmm_free_page
pmm_free_page_lem {s} a v = elim (Bool-cases (leb s.total_pages (a / 4096))) [
  | inl out ↦ rw out (invalid (ground arith) refl, v)
  | inr inside ↦ rw inside (elim (Bool-cases (bitmap_test s (a / 4096))) [
    | inl on ↦
        let lt : a / 4096 < s.total_pages = ground arith in
        rw on (
          freed lt on (bitmap_test-release_page v _ lt) (used-release_page v _ lt on),
          release_page-IsValid v _ lt on,
        )
    | inr off ↦ rw off (double_free off refl, v)
  ])
]

free_taken :
    {s : Pmm}
    → IsValid s
    → (i : ℕ) → i < s.total_pages
    → bitmap_test s i ≡ false
    → pmm_free_page (take_page s i) (i * 4096) ≡ s
unfolding pmm_free_page
free_taken {s} v i hi off =
    let same : i * 4096 / 4096 ≡ i = omega arith in
    let inside : leb (take_page s i).total_pages i ≡ false = rw total-take_page (ground arith) in
    let used : bitmap_test (take_page s i) i ≡ true =
      bitmap_test-take_page v i hi i ∙ ground arith in
    rw (same, inside, used) (release_page-take_page v i hi off)

-- From a state whose accounting is valid, freeing the page that `pmm_alloc_page` just returned, if
-- it is not null, gives back the very same state.
pub pmm_free_page-pmm_alloc_page :
    {s : Pmm}
    → IsValid s
    → (pmm_alloc_page s).0 ≢ 0
    → pmm_free_page (pmm_alloc_page s).1 (pmm_alloc_page s).0 ≡ s
pmm_free_page-pmm_alloc_page {s} v ne = elim (pmm_alloc_page_cases v) [
  | inl (used, e) ↦ absurd (ne (rw e))
  | inr (i, (lo, hi, off, before, e)) ↦ rw e (free_taken v i hi off)
]

-- In a state whose accounting is valid, the used and the free memory add up to the bytes of all
-- pages, which is the managed memory: none of the three products wraps.
pub used-add-free :
    {s : Pmm}
    → IsValid s
    → (pmm_get_used_memory s + pmm_get_free_memory s ≡ s.total_pages * 4096)
      × (pmm_get_managed_memory s ≡ s.total_pages * 4096)
unfolding pmm_get_used_memory pmm_get_free_memory pmm_get_managed_memory
used-add-free {s} v = omega (arith, v.counted, v.small, count-le (bitmap_test s) s.total_pages)
