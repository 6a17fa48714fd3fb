-- ===== src/Heap/Tests.antt =====
-- Runs of the heap, and its theorems at concrete states.
use paradox_os.Base.{List, [], arith, false, refl, true, ◌%◌, ◌∷◌, ◌≡◌}
use paradox_os.Base.Bits.{test_bit}
use paradox_os.Pmm.{Pmm, bitmap_test}
use paradox_os.Pmm.Bitmap
use paradox_os.Pmm.Count.{count}
use paradox_os.Heap.{
  Block, Heap, kmalloc, kfree, krealloc, carve, first_fit, absorb_next, release, join_prev,
}
use paradox_os.Heap.Tiles.{used, IsValid}
use paradox_os.Heap.Malloc.{Served, kmalloc_lem}
use paradox_os.Heap.Free.{Released, kfree_lem}
use paradox_os.Heap.RoundTrip.{kfree-kmalloc}
use paradox_os.Heap.Realloc.{Resized, krealloc_lem}

-- Three blocks from address 4096 on: one of 40 bytes in use between two free ones.
abbrev blocks : List Block
blocks =
    record { addr = 4096; size = 64; is_free = true }
    ∷ record { addr = 4177; size = 40; is_free = false }
    ∷ record { addr = 4234; size = 200; is_free = true }
    ∷ []

abbrev heap : Heap
heap = record { heap_start = blocks; heap_size = 355; bytes = λ a. a % 256 }

heap-IsValid : IsValid 4096 heap
heap-IsValid = record {
  tiles = (refl, (refl, (refl, refl)));
  coalesced = (refl, (refl, (refl, tt)));
  not_null = omega arith;
  bounded = omega arith;
}

kmalloc_runs :
    (kmalloc heap 20).1.heap_start
    ≡ record { addr = 4096; size = 24; is_free = false }
      ∷ record { addr = 4137; size = 23; is_free = true }
      ∷ record { addr = 4177; size = 40; is_free = false }
      ∷ record { addr = 4234; size = 200; is_free = true }
      ∷ []
unfolding kmalloc first_fit carve
kmalloc_runs = refl

kfree_runs : (kfree heap 4194).heap_start ≡ record { addr = 4096; size = 338; is_free = true } ∷ []
unfolding kfree release absorb_next join_prev
kfree_runs = refl

kmalloc_lem_example : Served heap 100 (kmalloc heap 100) × IsValid 4096 (kmalloc heap 100).1
kmalloc_lem_example = kmalloc_lem 100 heap-IsValid (omega arith) (omega arith)

kfree_lem_example :
    (Released heap 4194 (kfree heap 4194) × IsValid 4096 (kfree heap 4194)) × (kfree heap 0 ≡ heap)
unfolding used
kfree_lem_example = kfree_lem 4194 40 heap-IsValid refl

kfree-kmalloc_example : kfree (kmalloc heap 100).1 (kmalloc heap 100).0 ≡ heap
unfolding kmalloc first_fit
kfree-kmalloc_example = kfree-kmalloc 100 heap-IsValid (omega arith)

krealloc_lem_example :
    Resized heap 4194 40 100 (krealloc heap 4194 100) × IsValid 4096 (krealloc heap 4194 100).1
unfolding used
krealloc_lem_example = krealloc_lem 4194 40 100 heap-IsValid refl (omega arith) (omega arith)

-- 64 pages, of which the first eight are used.
abbrev memory : Pmm
memory = record {
  page_bitmap = 255 ∷ 0 ∷ 0 ∷ 0 ∷ 0 ∷ 0 ∷ 0 ∷ 0 ∷ [];
  bitmap_base = 0;
  total_pages = 64;
  used_pages = 8;
  bitmap_size = 8;
  total_memory = 0;
  usable_memory = 0;
}

memory-IsValid : Bitmap.IsValid memory
unfolding count bitmap_test test_bit
memory-IsValid = record {
  bytes = omega arith;
  covers = omega arith;
  small = omega arith;
  counted = refl;
}
