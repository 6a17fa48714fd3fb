-- ===== src/Diskfs/Tests.antt =====
-- A concrete directory.
use paradox_os.Base.{[], arith, length, refl, some, ◌∷◌, ◌≡◌, ◌≤◌}
use paradox_os.Diskfs.{SuperBlock, diskfs_max_files, search, find_slot, choose_slot}
use paradox_os.Diskfs.Slots.{Keeps, Refuses, choose_slot_lem}

abbrev disk : SuperBlock
disk = record {
  magic = 0x50465356;
  version = 1;
  entries = record { path = b'/' ∷ b'a' ∷ []; size = 3; flags = 0 } ∷ [];
}

has_slot : find_slot disk (b'/' ∷ b'a' ∷ []) ≡ some 0
unfolding search
has_slot = refl

-- The first file of an empty directory
abbrev no_files : SuperBlock
no_files = record disk { entries = [] }

choose_slot_lem_example :
    ((choose_slot no_files (b'/' ∷ b'b' ∷ [])).0
      ≡ find_slot (choose_slot no_files (b'/' ∷ b'b' ∷ [])).1 (b'/' ∷ b'b' ∷ []))
    × Refuses no_files (choose_slot no_files (b'/' ∷ b'b' ∷ []))
    × (length (choose_slot no_files (b'/' ∷ b'b' ∷ [])).1.entries ≤ diskfs_max_files)
    × Keeps no_files (choose_slot no_files (b'/' ∷ b'b' ∷ [])).1
choose_slot_lem_example = choose_slot_lem no_files (b'/' ∷ b'b' ∷ []) (omega arith) (omega arith)
