-- ===== src/Pmm/Init.antt =====
-- `pmm_init`: where the available regions of the memory map do not overlap, the accounting starts
-- valid, and the free pages are those of the available regions less the kernel's.
use paradox_os.Base.{
  All-replicate, Bool, Bool-cases, List, [], ap, arith, false, for_range-zero, for_range_inv,
  get_or, if◌then◌else◌, inl, inr, leb, leb→le, length-replicate, ltb, ltb→le, ltb→lt, not, refl,
  replicate, some, suc, sym, true, zero, ℕ, ◌%◌, ◌&&◌, ◌+◌, ◌-◌, ◌/◌, ◌<◌, ◌==◌, ◌^◌, ◌||◌, ◌∙◌,
  ◌∷◌, ◌≡◌, ◌≤◌,
}
use paradox_os.Pmm.{
  Pmm, boot_state, bitmap_test, MmapEntry, Tag, start_page, end_page, find_mmap_tag, free_region,
  free_regions, reserve_pages, measure, pmm_init, Totals, place_bitmap, bitmap_end_page,
  start_totals,
}
use paradox_os.Base.Bits.{all_below, all_below_lem, test_bit}
use paradox_os.Pmm.Count.{count_all}
use paradox_os.Pmm.Bitmap.{
  IsValid, IsByte, bitmap_test-take_page, bitmap_test-release_page, take_page-IsValid,
  release_page-IsValid, total-take_page, total-release_page,
}

-- Page `j` lies in an available region of the map.
abbrev pub in_region : MmapEntry → ℕ → Bool
in_region e j = e.type == 1 && (leb (start_page e) j && ltb j (end_page e))

abbrev pub in_regions : List MmapEntry → ℕ → Bool
in_regions [] j = false
in_regions (e ∷ es) j = in_region e j || in_regions es j

-- No page lies in two available regions.
abbrev pub Disjoint : List MmapEntry → Type 0
Disjoint [] = Unit
Disjoint (e ∷ es) = ((j : ℕ) → in_region e j ≡ true → in_regions es j ≡ false) × Disjoint es

-- `t` is `s` with the pages that `f` accepts freed.
record FreedBy (f : ℕ → Bool) (s t : Pmm) : Type 0 where
  valid : IsValid t
  same : t.total_pages ≡ s.total_pages
  freed : (j : ℕ) → j < s.total_pages → bitmap_test t j ≡ (if f j then false else bitmap_test s j)

free_region-FreedBy :
    {s : Pmm} (from to : ℕ)
    → IsValid s
    → from ≤ to
    → ((j : ℕ) → from ≤ j → j < to → j < s.total_pages → bitmap_test s j ≡ true)
    → FreedBy (λ j. leb from j && ltb j to) s (free_region s from to)
unfolding free_region
free_region-FreedBy {s} from to v le used =
    for_range_inv (λ i t. FreedBy (λ j. leb from j && ltb j i) s t) _ (to - from) from to s
      (omega arith)
      (λ k t lo hi p. elim (Bool-cases (ltb k t.total_pages)) [
        | inl inside ↦
            let kin : k < t.total_pages = ltb→lt k t.total_pages inside in
            let on : bitmap_test t k ≡ true =
              ground
                (arith, p.freed k (omega (arith, p.same)), used k lo hi (omega (arith, p.same))) in
            rw inside (record {
              valid = release_page-IsValid p.valid k kin on;
              same = total-release_page t k ∙ p.same;
              freed =
                  λ j lt. ground (arith, bitmap_test-release_page p.valid k kin j, p.freed j lt);
            })
        | inr outside ↦
            let out : s.total_pages ≤ k = omega (arith, ltb→le k t.total_pages outside, p.same) in
            rw outside (record {
              valid = p.valid;
              same = p.same;
              freed = λ j lt. ground (arith, p.freed j lt);
            })
      ])
      (record { valid = v; same = refl; freed = λ j lt. ground arith })

-- Where the region's end lies before its start, no page is in it.
free_region-empty : (s : Pmm) (from to : ℕ) → to ≤ from → free_region s from to ≡ s
unfolding free_region
free_region-empty s from to le = rw (zero_rounds, for_range-zero)
  where
    zero_rounds : to - from ≡ 0
    zero_rounds = omega arith

free_entry-FreedBy :
    {s : Pmm} (e : MmapEntry)
    → IsValid s
    → ((j : ℕ) → j < s.total_pages → in_region e j ≡ true → bitmap_test s j ≡ true)
    → FreedBy (in_region e) s (if e.type == 1 then free_region s (start_page e) (end_page e) else s)
free_entry-FreedBy {s} e v used = elim (Bool-cases (e.type == 1)) [
  | inl available ↦ elim (Bool-cases (leb (start_page e) (end_page e))) [
    | inl le ↦
        let p =
          free_region-FreedBy (start_page e) (end_page e) v (leb→le _ _ le)
            (λ j lo hi lt. used j lt (ground arith)) in
        rw available
          (record { valid = p.valid; same = p.same; freed = λ j lt. ground (arith, p.freed j lt) })
    | inr gt ↦
        rw (available, free_region-empty s (start_page e) (end_page e) (ground arith))
          (record { valid = v; same = refl; freed = λ j lt. ground arith })
  ]
  | inr other ↦ rw other (record { valid = v; same = refl; freed = λ j lt. ground arith })
]

module _ {f g : ℕ → Bool} {s t : Pmm} (p : FreedBy f s t) where
  -- What the first region leaves used, for the regions after it.
  still_used :
      ((j : ℕ) → f j ≡ true → g j ≡ false)
      → ((j : ℕ) → j < s.total_pages → (f j || g j) ≡ true → bitmap_test s j ≡ true)
      → (j : ℕ) → j < t.total_pages
      → g j ≡ true
      → bitmap_test t j ≡ true
  still_used apart used j lt in_g =
      let inside : j < s.total_pages = omega (arith, p.same) in
      ground (arith, p.freed j inside, apart j, used j inside)

  FreedBy-trans : {u : Pmm} → FreedBy g t u → FreedBy (λ j. f j || g j) s u
  FreedBy-trans q = record {
    valid = q.valid;
    same = q.same ∙ p.same;
    freed = λ j lt. ground (arith, p.freed j lt, q.freed j (omega (arith, p.same)));
  }

free_regions-FreedBy :
    (es : List MmapEntry) {s : Pmm}
    → IsValid s
    → Disjoint es
    → ((j : ℕ) → j < s.total_pages → in_regions es j ≡ true → bitmap_test s j ≡ true)
    → FreedBy (in_regions es) s (free_regions es s)
unfolding free_regions
free_regions-FreedBy [] v d used = record { valid = v; same = refl; freed = λ j lt. refl }
free_regions-FreedBy (e ∷ es) v d used =
    let p = free_entry-FreedBy e v (λ j lt r. used j lt (ground arith)) in
    FreedBy-trans p (free_regions-FreedBy es p.valid d.1 (still_used p d.0 used))

-- `t` is `s` with the pages from `from` up to `to` in use.
record Reserved (s : Pmm) (from to : ℕ) (t : Pmm) : Type 0 where
  valid : IsValid t
  same : t.total_pages ≡ s.total_pages
  marked :
      (j : ℕ)
      → j < s.total_pages
      → bitmap_test t j ≡ (if leb from j && ltb j to then true else bitmap_test s j)

reserve_pages-Reserved :
    {s : Pmm} (from to : ℕ)
    → IsValid s
    → from ≤ to + 1
    → Reserved s from (to + 1) (reserve_pages s from to)
unfolding reserve_pages
reserve_pages-Reserved {s} from to v le =
    for_range_inv (λ i t. Reserved s from i t) _ (to + 1 - from) from (to + 1) s (omega arith)
      (λ k t lo hi p. elim (Bool-cases (ltb k t.total_pages && not (bitmap_test t k))) [
        | inl free ↦
            let kin : k < t.total_pages = ground arith in
            rw free (record {
              valid = take_page-IsValid p.valid k kin (ground arith);
              same = total-take_page t k ∙ p.same;
              marked = λ j lt. ground (arith, bitmap_test-take_page p.valid k kin j, p.marked j lt);
            })
        | inr busy ↦ rw busy (record {
          valid = p.valid;
          same = p.same;
          marked = λ j lt. elim (Bool-cases (j == k)) [
            | inl here ↦
                let e : k ≡ j = ground arith in
                let lt' : k < t.total_pages = omega (arith, p.same) in
                ground (arith, p.marked j lt, ap (bitmap_test t) e)
            | inr there ↦ ground (arith, p.marked j lt)
          ];
        })
      ])
      (record { valid = v; same = refl; marked = λ j lt. ground arith })

-- Where the last page lies before the first, nothing is marked.
reserve_pages-empty : (s : Pmm) (from to : ℕ) → to + 1 ≤ from → reserve_pages s from to ≡ s
unfolding reserve_pages
reserve_pages-empty s from to le = rw (no_rounds, for_range-zero)
  where
    no_rounds : to + 1 - from ≡ 0
    no_rounds = omega arith

reserve_pages_lem :
    {s : Pmm} (from to : ℕ) → IsValid s → Reserved s from (to + 1) (reserve_pages s from to)
reserve_pages_lem {s} from to v = elim (Bool-cases (leb from (to + 1))) [
  | inl le ↦ reserve_pages-Reserved from to v (leb→le _ _ le)
  | inr gt ↦
      rw (reserve_pages-empty s from to (ground arith))
        (record { valid = v; same = refl; marked = λ j lt. ground arith })
]

-- The highest address stays below 2 ^ 64, so the number of pages stays below 2 ^ 52.
measure-highest :
    (es : List MmapEntry) (t : Totals)
    → t.highest_addr < 2 ^ 64
    → (measure es t).highest_addr < 2 ^ 64
unfolding measure
measure-highest [] t h = h
measure-highest (e ∷ es) t h = measure-highest es _ (ground arith)

byte_full : all_below 8 (test_bit 255) ≡ true
unfolding all_below test_bit
byte_full = refl

get_or-replicate : (n i v d : ℕ) → i < n → get_or (replicate n v) i d ≡ v
get_or-replicate zero i v d h = absurd (omega arith)
get_or-replicate (suc n) zero v d h = refl
get_or-replicate (suc n) (suc i) v d h = get_or-replicate n i v d (omega arith)

module _ (m : Totals) (kernel_end mboot_end : ℕ) where
  all_pages_used :
      (j : ℕ)
      → j < (place_bitmap m kernel_end mboot_end).total_pages
      → bitmap_test (place_bitmap m kernel_end mboot_end) j ≡ true
  unfolding place_bitmap bitmap_test
  all_pages_used j lt =
      rw (get_or-replicate ((total + 7) / 8) (j / 8) 255 0 (omega arith))
        (all_below_lem (test_bit 255) {n = j % 8} (omega arith) byte_full)
    where
      total : ℕ
      total = (place_bitmap m kernel_end mboot_end).total_pages

  place_bitmap-IsValid : m.highest_addr < 2 ^ 64 → IsValid (place_bitmap m kernel_end mboot_end)
  unfolding place_bitmap
  place_bitmap-IsValid h = record {
    bytes = All-replicate IsByte _ 255 (omega arith);
    covers = rw length-replicate (omega arith);
    small = ground arith;
    counted = sym (count_all _ _ all_pages_used);
  }

-- The state between the loop that fills the bitmap and the one that frees the regions.
abbrev pub placed : List MmapEntry → ℕ → ℕ → Pmm
placed entries = place_bitmap (measure entries (start_totals boot_state))

-- If the boot information has a memory map and no page lies in two available regions, `pmm_init`
-- leaves an accounting that is valid, in which a page is used exactly if it lies between 1 MiB and
-- the page behind the bitmap or in no available region.
pub pmm_init_lem :
    (tags : List Tag) {entries : List MmapEntry} (kernel_end mboot_end : ℕ)
    → find_mmap_tag tags ≡ some entries
    → Disjoint entries
    → IsValid (pmm_init boot_state tags kernel_end mboot_end)
      × ((j : ℕ)
          → j < (pmm_init boot_state tags kernel_end mboot_end).total_pages
          → bitmap_test (pmm_init boot_state tags kernel_end mboot_end) j ≡ (
              if leb 256 j && ltb j (bitmap_end_page (placed entries kernel_end mboot_end) + 1)
              then true
              else not (in_regions entries j)))
unfolding pmm_init
pmm_init_lem tags {entries} kernel_end mboot_end found apart =
    let start = placed entries kernel_end mboot_end in
    let v =
      place_bitmap-IsValid (measure entries (start_totals boot_state)) kernel_end mboot_end
        (measure-highest entries _ (omega arith)) in
    let used = all_pages_used (measure entries (start_totals boot_state)) kernel_end mboot_end in
    let p = free_regions-FreedBy entries v apart (λ j lt r. used j lt) in
    let q = reserve_pages_lem 256 (bitmap_end_page start) p.valid in
    rw (found, pmm_init)
      (
        q.valid,
        λ j lt.
            let in_freed : j < (free_regions entries start).total_pages = omega (arith, q.same) in
            let in_start : j < start.total_pages = omega (arith, p.same) in
            ground (arith, q.marked j in_freed, p.freed j in_start, used j in_start),
      )
