-- ===== src/Pmm.antt =====
-- The physical memory manager, src/kernel/pmm.cpp, with the page size of src/include/memory.h.
-- The boot information is the list of its tags, so stepping a pointer from tag to tag and from
-- entry to entry is the order of a list. Messages to the serial port are left out.
pub mod Bitmap
pub mod Count
pub mod Alloc
pub mod Contiguous
pub mod Init
mod Tests
use paradox_os.Base.{
  Bool, List, Option, [], false, for_range, get_or, if◌then◌else◌, leb, ltb, none, not, replicate,
  set, some, suc, true, zero, ℕ, ◌%◌, ◌&&◌, ◌*◌, ◌+◌, ◌-◌, ◌/◌, ◌==◌, ◌^◌, ◌∷◌,
}
use paradox_os.Base.Bits.{set_bit, clear_bit, test_bit}

abbrev pub page_size : ℕ
page_size = 4096

-- The static variables of the file. `page_bitmap` is the array at address `bitmap_base`.
pub record Pmm : Type 0 where
  pub page_bitmap : List ℕ
  pub bitmap_base : ℕ
  pub total_pages : ℕ
  pub used_pages : ℕ
  pub bitmap_size : ℕ
  pub total_memory : ℕ
  pub usable_memory : ℕ

abbrev pub boot_state : Pmm
boot_state = record {
  page_bitmap = [];
  bitmap_base = 0;
  total_pages = 0;
  used_pages = 0;
  bitmap_size = 0;
  total_memory = 0;
  usable_memory = 0;
}

-- `uint64_t` arithmetic
abbrev pub add64 : ℕ → ℕ → ℕ
add64 a b = (a + b) % 2 ^ 64

abbrev pub dec64 : ℕ → ℕ
dec64 a = (a + (2 ^ 64 - 1)) % 2 ^ 64

unfoldable pub bitmap_set : Pmm → ℕ → Pmm
bitmap_set s bit = record s {
  page_bitmap = set s.page_bitmap (bit / 8) (set_bit (get_or s.page_bitmap (bit / 8) 0) (bit % 8));
}

unfoldable pub bitmap_clear : Pmm → ℕ → Pmm
bitmap_clear s bit = record s {
  page_bitmap =
      set s.page_bitmap (bit / 8) (clear_bit (get_or s.page_bitmap (bit / 8) 0) (bit % 8));
}

unfoldable pub bitmap_test : Pmm → ℕ → Bool
bitmap_test s bit = test_bit (get_or s.page_bitmap (bit / 8) 0) (bit % 8)

-- `bitmap_set(i); used_pages++`
unfoldable pub take_page : Pmm → ℕ → Pmm
unfolding bitmap_set
take_page s i = let t = bitmap_set s i in record t { used_pages = add64 t.used_pages 1 }

-- `bitmap_clear(i); used_pages--`
unfoldable pub release_page : Pmm → ℕ → Pmm
unfolding bitmap_clear
release_page s i = let t = bitmap_clear s i in record t { used_pages = dec64 t.used_pages }

-- The address of a page. The null pointer is 0.
abbrev pub page_addr : ℕ → ℕ
page_addr i = i * page_size % 2 ^ 64

-- The loop of `pmm_alloc_page`, with the rounds left and the page it looks at.
unfoldable pub find_free : Pmm → ℕ → ℕ → Option ℕ
find_free s zero i = none
find_free s (suc rounds) i =
    let rest = find_free s rounds (i + 1) in if not (bitmap_test s i) then some i else rest

unfoldable pub pmm_alloc_page : Pmm → ℕ × Pmm
pmm_alloc_page s = elim (find_free s (s.total_pages - 1) 1) [
  | some i ↦ (page_addr i, take_page s i)
  | none ↦ (0, s)
]

unfoldable pub pmm_free_page : Pmm → ℕ → Pmm
pmm_free_page s page =
    let page_index = page / page_size in
    if leb s.total_pages page_index
    then s
    else if not (bitmap_test s page_index)
    then s
    else release_page s page_index

-- The loop of `pmm_alloc_contiguous`: the length of the current run and where it starts.
pub find_run : Pmm → ℕ → ℕ → ℕ → ℕ → ℕ → Option ℕ
find_run s n_pages zero i run run_start = none
find_run s n_pages (suc rounds) i run run_start = elim (bitmap_test s i) [
  | true ↦ find_run s n_pages rounds (i + 1) 0 run_start
  | false ↦
      let start = if run == 0 then i else run_start in
      let rest = find_run s n_pages rounds (i + 1) (run + 1) start in
      if leb n_pages (run + 1) then some start else rest
]

-- The inner loop over `j`, which marks the run that was found.
pub take_run : Pmm → ℕ → ℕ → Pmm
take_run s run_start n_pages = for_range n_pages run_start (λ j t. take_page t j) s

pub pmm_alloc_contiguous : Pmm → ℕ → ℕ × Pmm
pmm_alloc_contiguous s n_pages =
    if n_pages == 0 then (0, s) else elim (find_run s n_pages (s.total_pages - 1) 1 0 0) [
      | some start ↦ (page_addr start, take_run s start n_pages)
      | none ↦ (0, s)
    ]

pub pmm_get_total_memory : Pmm → ℕ
pmm_get_total_memory s = s.total_memory

pub pmm_get_managed_memory : Pmm → ℕ
pmm_get_managed_memory s = s.total_pages * page_size % 2 ^ 64

pub pmm_get_used_memory : Pmm → ℕ
pmm_get_used_memory s = s.used_pages * page_size % 2 ^ 64

pub pmm_get_free_memory : Pmm → ℕ
pmm_get_free_memory s = (s.total_pages + 2 ^ 64 - s.used_pages) * page_size % 2 ^ 64

-- An entry of the memory map, and a tag of the boot information: `entries` is what follows the
-- header of a tag of type 6.
pub record MmapEntry : Type 0 where
  pub base_addr : ℕ
  pub length : ℕ
  pub type : ℕ

pub record Tag : Type 0 where
  pub type : ℕ
  pub entries : List MmapEntry

-- The `while` loop over the tags, up to the tag of type 0.
pub find_mmap_tag : List Tag → Option (List MmapEntry)
find_mmap_tag [] = none
find_mmap_tag (tag ∷ tags) =
    if tag.type == 0 then none else if tag.type == 6 then some tag.entries else find_mmap_tag tags

-- The first loop over the entries: the highest address and the two totals.
pub record Totals : Type 0 where
  pub highest_addr : ℕ
  pub total : ℕ
  pub usable : ℕ

pub measure : List MmapEntry → Totals → Totals
measure [] t = t
measure (e ∷ es) t =
    let end_addr = add64 e.base_addr e.length in
    measure es (record {
      highest_addr = if ltb t.highest_addr end_addr then end_addr else t.highest_addr;
      total = add64 t.total e.length;
      usable = if e.type == 1 then add64 t.usable e.length else t.usable;
    })

-- The pages of an available region: those that lie in it whole.
abbrev pub start_page : MmapEntry → ℕ
start_page e = add64 e.base_addr (page_size - 1) / page_size

abbrev pub end_page : MmapEntry → ℕ
end_page e = add64 e.base_addr e.length / page_size

-- The inner loop over the pages of a region.
pub free_region : Pmm → ℕ → ℕ → Pmm
free_region s from to =
    for_range (to - from) from (λ page t. if ltb page t.total_pages then release_page t page else t)
      s

-- The second loop over the entries.
pub free_regions : List MmapEntry → Pmm → Pmm
free_regions [] s = s
free_regions (e ∷ es) s =
    free_regions es (if e.type == 1 then free_region s (start_page e) (end_page e) else s)

-- The loop that marks the kernel and the bitmap; `to` is included.
pub reserve_pages : Pmm → ℕ → ℕ → Pmm
reserve_pages s from to =
    for_range (to + 1 - from) from
      (λ page t. if ltb page t.total_pages && not (bitmap_test t page) then take_page t page else t)
      s

-- From the totals on up to the loop that fills the bitmap: its size, its place behind the kernel
-- and the boot information, and every page marked as used. `kernel_end` is the address of
-- `_kernel_end`, `mboot_end` that of the end of the boot information.
pub place_bitmap : Totals → ℕ → ℕ → Pmm
place_bitmap m kernel_end mboot_end =
    let twice = m.usable * 2 % 2 ^ 64 in
    let total =
      if ltb twice m.highest_addr then twice / page_size else m.highest_addr / page_size in
    let safe_start = if ltb mboot_end kernel_end then kernel_end else mboot_end in
    record {
      page_bitmap = replicate ((total + 7) / 8) 255;
      bitmap_base = add64 safe_start (page_size - 1) / page_size * page_size;
      total_pages = total;
      used_pages = total;
      bitmap_size = (total + 7) / 8;
      total_memory = m.total;
      usable_memory = m.usable;
    }

-- The page behind the bitmap, the last one that is reserved for the kernel.
pub bitmap_end_page : Pmm → ℕ
bitmap_end_page s = add64 (add64 s.bitmap_base s.bitmap_size) (page_size - 1) / page_size

abbrev pub start_totals : Pmm → Totals
start_totals s = record { highest_addr = 0; total = s.total_memory; usable = s.usable_memory }

pub pmm_init : Pmm → List Tag → ℕ → ℕ → Pmm
pmm_init s tags kernel_end mboot_end = elim (find_mmap_tag tags) [
  | none ↦ s
  | some entries ↦
      let all_used = place_bitmap (measure entries (start_totals s)) kernel_end mboot_end in
      reserve_pages (free_regions entries all_used) (0x100000 / page_size)
        (bitmap_end_page all_used)
]
