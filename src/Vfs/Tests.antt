-- ===== src/Vfs/Tests.antt =====
-- Concrete files.
use paradox_os.Base.{[], arith, if◌then◌else◌, inl, none, refl, some, true, ◌+◌, ◌==◌, ◌∷◌, ◌≡◌}
use paradox_os.Heap.{Heap, kmalloc, first_fit}
use paradox_os.Vfs.{
  Vfs, VfsNode, file, dir, vfs_lookup, walk, find_child, path_component, vfs_write, vfs_append_char,
  vfs_pop_char, ensure_cap, store, text_of, grow,
}
use paradox_os.Vfs.Lookup.{named, vfs_lookup_lem}
use paradox_os.Vfs.Files.{Ends, vfs_write_lem, vfs_pop_char-vfs_append_char}

abbrev heap : Heap
heap = record {
  heap_start = record { addr = 4096; size = 4079; is_free = true } ∷ [];
  heap_size = 4096;
  bytes = λ a. 0;
}

-- The root at 100, and a file a in it at 300.
abbrev root : VfsNode
root = record {
  name = b'/' ∷ [];
  kind = dir;
  parent = 0;
  first_child = 300;
  next = 0;
  content = 0;
  buffer = λ i. 0;
  len = 0;
  cap = 0;
  exec_fn = 0;
  description = [];
}

abbrev note : VfsNode
note = record {
  name = b'a' ∷ [];
  kind = file;
  parent = 100;
  first_child = 0;
  next = 0;
  content = 0;
  buffer = λ i. 0;
  len = 0;
  cap = 0;
  exec_fn = 0;
  description = [];
}

-- A file that has 63 characters in a buffer of 64
abbrev full_note : VfsNode
full_note = record note { content = 9000; buffer = λ i. 65 + i; len = 63; cap = 64 }

abbrev vfs : Vfs
vfs = record { nodes = λ q. if q == 300 then note else root; g_root = 100; heap = heap; calls = [] }

found : vfs_lookup 5 vfs (b'/' ∷ b'a' ∷ []) ≡ some 300
unfolding vfs_lookup walk find_child path_component
found = refl

vfs_write_lem_example : Ends vfs 300 (72 ∷ 105 ∷ []) (vfs_write vfs 300 (72 ∷ 105 ∷ []))
vfs_write_lem_example =
    vfs_write_lem vfs 300 (72 ∷ 105 ∷ []) (omega arith) refl (omega arith) (omega arith)

-- The buffer grows when the character is appended.
abbrev full : Vfs
full = record vfs { nodes = λ q. if q == 300 then full_note else root }

abbrev appended : Vfs
appended = elim (vfs_append_char full 300 72) [ none ↦ vfs | some r ↦ r.1 ]

vfs_pop_char-vfs_append_char_example :
    ((vfs_pop_char appended 300).0 ≡ true)
    × (text_of ((vfs_pop_char appended 300).1.nodes 300) ≡ text_of (full.nodes 300))
unfolding vfs_append_char ensure_cap store grow kmalloc first_fit
vfs_pop_char-vfs_append_char_example =
    vfs_pop_char-vfs_append_char full appended 300 72 (omega arith) refl (omega arith) (omega arith)
      (inl (omega arith)) refl

vfs_lookup_lem_example :
    vfs_lookup 2 vfs (b'/' ∷ (b'a' ∷ [])) ≡ some (named vfs.nodes (300 ∷ []) (b'a' ∷ []))
vfs_lookup_lem_example =
    vfs_lookup_lem 2 vfs (300 ∷ []) (b'a' ∷ []) (omega arith) refl (refl, omega arith, refl)
      (omega arith) (refl, tt) (omega arith) (omega arith)
