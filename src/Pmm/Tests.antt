-- ===== src/Pmm/Tests.antt =====
-- Runs of the physical memory manager, and its theorems at concrete states.
use paradox_os.Base.{
  List, [], arith, for_range, if◌then◌else◌, leb, ltb, not, refl, some, true, ℕ, ◌&&◌, ◌*◌, ◌+◌,
  ◌<◌, ◌∷◌, ◌≡◌,
}
use paradox_os.Base.Bits.{test_bit, set_bit, clear_bit}
use paradox_os.Pmm.{
  Pmm, Tag, MmapEntry, boot_state, bitmap_test, find_mmap_tag, pmm_init, pmm_alloc_page,
  pmm_free_page, pmm_alloc_contiguous, bitmap_end_page, find_free, take_page, release_page,
  take_run, find_run, measure, free_regions, free_region, reserve_pages, place_bitmap,
}
use paradox_os.Pmm.Count.{count}
use paradox_os.Pmm.Bitmap.{IsValid}
use paradox_os.Pmm.Alloc.{
  Allocated, Freed, pmm_alloc_page_lem, pmm_free_page_lem, pmm_free_page-pmm_alloc_page,
}
use paradox_os.Pmm.Contiguous.{AllocatedRun, pmm_alloc_contiguous_lem}
use paradox_os.Pmm.Init.{Disjoint, in_regions, placed, pmm_init_lem}

-- Eight pages, of which 0, 1 and 3 are used.
abbrev small : Pmm
small = record boot_state {
  page_bitmap = 11 ∷ [];
  total_pages = 8;
  used_pages = 3;
  bitmap_size = 1;
}

small-IsValid : IsValid small
unfolding count bitmap_test test_bit
small-IsValid = record {
  bytes = omega arith;
  covers = omega arith;
  small = omega arith;
  counted = refl;
}

pmm_alloc_page_runs :
    pmm_alloc_page small ≡ (2 * 4096, record small { page_bitmap = 15 ∷ []; used_pages = 4 })
unfolding pmm_alloc_page find_free take_page bitmap_test test_bit set_bit
pmm_alloc_page_runs = refl

pmm_alloc_contiguous_runs :
    pmm_alloc_contiguous small 3
    ≡ (4 * 4096, record small { page_bitmap = 123 ∷ []; used_pages = 6 })
unfolding pmm_alloc_contiguous find_run take_run for_range take_page bitmap_test test_bit set_bit
pmm_alloc_contiguous_runs = refl

pmm_alloc_page_lem_example :
    Allocated small (pmm_alloc_page small) × IsValid (pmm_alloc_page small).1
pmm_alloc_page_lem_example = pmm_alloc_page_lem small-IsValid

pmm_free_page_lem_example :
    Freed small 3 (pmm_free_page small 12300) × IsValid (pmm_free_page small 12300)
pmm_free_page_lem_example = pmm_free_page_lem 12300 small-IsValid

pmm_free_page-pmm_alloc_page_example :
    pmm_free_page (pmm_alloc_page small).1 (pmm_alloc_page small).0 ≡ small
unfolding pmm_alloc_page find_free take_page bitmap_test test_bit set_bit
pmm_free_page-pmm_alloc_page_example = pmm_free_page-pmm_alloc_page small-IsValid (omega arith)

pmm_alloc_contiguous_lem_example :
    AllocatedRun small 3 (pmm_alloc_contiguous small 3) × IsValid (pmm_alloc_contiguous small 3).1
pmm_alloc_contiguous_lem_example = pmm_alloc_contiguous_lem 3 small-IsValid (omega arith)

-- 2 MiB of memory, of which the first 640 KiB and all above 1 MiB are available.
abbrev map : List MmapEntry
map =
    record { base_addr = 0; length = 0xa0000; type = 1 }
    ∷ record { base_addr = 0xa0000; length = 0x60000; type = 2 }
    ∷ record { base_addr = 0x100000; length = 0x100000; type = 1 }
    ∷ []

abbrev tags : List Tag
tags = record { type = 4; entries = [] } ∷ record { type = 6; entries = map } ∷ []

map-Disjoint : Disjoint map
map-Disjoint = (λ j h. ground arith, (λ j h. ground arith, (λ j h. ground arith, tt)))

map-found : find_mmap_tag tags ≡ some map
unfolding find_mmap_tag
map-found = refl

pmm_init_lem_example :
    IsValid (pmm_init boot_state tags 0x120000 0x9500)
    × ((j : ℕ)
        → j < (pmm_init boot_state tags 0x120000 0x9500).total_pages
        → bitmap_test (pmm_init boot_state tags 0x120000 0x9500) j ≡ (
            if leb 256 j && ltb j (bitmap_end_page (placed map 0x120000 0x9500) + 1)
            then true
            else not (in_regions map j)))
pmm_init_lem_example = pmm_init_lem tags 0x120000 0x9500 map-found map-Disjoint

pmm_init_runs : (pmm_init boot_state tags 0x120000 0x9500).used_pages ≡ 0x60 + 34
unfolding pmm_init find_mmap_tag measure place_bitmap free_regions free_region reserve_pages
    for_range take_page release_page bitmap_test test_bit set_bit clear_bit bitmap_end_page
pmm_init_runs = refl
