-- ===== src/Diskfs.antt =====
-- The directory of the disk file system, src/kernel/diskfs.cpp with src/include/diskfs.h: the super
-- block, whose `entries` are the first `count` of its entries, and the choice of a slot for a path.
-- A path is its characters without the final NUL. Reading and writing sectors is not modelled here.
pub mod Slots
mod Tests
use paradox_os.Base.{
  Bool, List, Option, [], false, if◌then◌else◌, leb, length, none, some, take, true, ℕ, ◌++◌, ◌+◌,
  ◌==◌, ◌∷◌,
}

abbrev pub diskfs_max_files : ℕ
diskfs_max_files = 16

pub record Entry : Type 0 where
  pub path : List ℕ
  pub size : ℕ
  pub flags : ℕ

pub record SuperBlock : Type 0 where
  pub magic : ℕ
  pub version : ℕ
  pub entries : List Entry

abbrev pub s_eq : List ℕ → List ℕ → Bool
s_eq [] [] = true
s_eq (a ∷ cs) (b ∷ ds) = if a == b then s_eq cs ds else false
s_eq _ _ = false

-- The index of the first entry with the path; `none` stands for -1.
unfoldable pub search : List Entry → List ℕ → ℕ → Option ℕ
search [] path i = none
search (e ∷ es) path i =
    let rest = search es path (i + 1) in if s_eq e.path path then some i else rest

abbrev pub find_slot : SuperBlock → List ℕ → Option ℕ
find_slot s path = search s.entries path 0

-- A path of 64 characters or more is cut.
unfoldable pub alloc_slot : SuperBlock → List ℕ → Option ℕ × SuperBlock
alloc_slot s path = if leb diskfs_max_files (length s.entries) then (none, s) else (
  some (length s.entries),
  record s { entries = s.entries ++ (record { path = take 63 path; size = 0; flags = 0 } ∷ []) },
)

-- The first step of `diskfs_save`: the slot that the path has, or a new one.
unfoldable pub choose_slot : SuperBlock → List ℕ → Option ℕ × SuperBlock
choose_slot s path = elim (find_slot s path) [ some i ↦ (some i, s) | none ↦ alloc_slot s path ]
