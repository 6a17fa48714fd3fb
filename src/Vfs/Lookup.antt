-- ===== src/Vfs/Lookup.antt =====
-- Finding a file in the root directory.
use paradox_os.Base.{
  All, Bool-cases, List, [], ap, arith, false, if◌then◌else◌, inl, inr, length, refl, some, suc,
  zero, ℕ, ◌<◌, ◌==◌, ◌∷◌, ◌≡◌, ◌≢◌, ◌≤◌,
}
use paradox_os.Vfs.{Vfs, VfsNode, dir, str_eq, find_child, path_component, walk, vfs_lookup}

-- From `p` on, the `next` pointers lead through the nodes of the list to null.
abbrev pub Children : (ℕ → VfsNode) → ℕ → List ℕ → Type 0
Children nodes p [] = p ≡ 0
Children nodes p (x ∷ xs) = (p ≡ x) × (x ≢ 0) × Children nodes (nodes x).next xs

-- The first node of the list that has the name, null if there is none.
abbrev pub named : (ℕ → VfsNode) → List ℕ → List ℕ → ℕ
named nodes [] comp = 0
named nodes (x ∷ xs) comp = if str_eq (nodes x).name comp then x else named nodes xs comp

-- The name has no slash.
abbrev pub NoSlash : List ℕ → Type 0
NoSlash = All (λ c. (c == b'/') ≡ false)

find_child-named :
    (fuel : ℕ) (nodes : ℕ → VfsNode) (p : ℕ) (xs comp : List ℕ)
    → Children nodes p xs
    → length xs < fuel
    → find_child fuel nodes p comp ≡ some (named nodes xs comp)
unfolding find_child
find_child-named zero nodes p xs comp ch few = absurd (omega arith)
find_child-named (suc fuel) nodes p [] comp ch few = rw ch refl
find_child-named (suc fuel) nodes p (x ∷ xs) comp ch few =
    let some_node : (x == 0) ≡ false = ground (arith, ch.1) in
    let rest = find_child-named fuel nodes (nodes x).next xs comp ch.2 (omega arith) in
    rw (ch.0, some_node)
      (elim (Bool-cases (str_eq (nodes x).name comp)) [ inl e ↦ rw e refl | inr e ↦ rw e rest ])

path_component-whole :
    (room : ℕ) (name : List ℕ)
    → NoSlash name
    → length name ≤ room
    → path_component room name ≡ (name, [])
unfolding path_component
path_component-whole room [] no_slash short = refl
path_component-whole zero (c ∷ cs) no_slash short = absurd (omega arith)
path_component-whole (suc room) (c ∷ cs) no_slash short =
    rw (no_slash.0, path_component-whole room cs no_slash.1 (omega arith)) refl

walk-child :
    (fuel : ℕ) (s : Vfs) (cur n : ℕ) (xs name : List ℕ)
    → (s.nodes cur).kind ≡ dir
    → Children s.nodes (s.nodes cur).first_child xs
    → length xs < fuel
    → NoSlash name
    → 0 < length name
    → length name < 32
    → walk (suc (suc n)) fuel s cur name ≡ some (named s.nodes xs name)
unfolding walk
walk-child fuel s cur n xs [] kind ch few no_slash some_char short = absurd (omega arith)
walk-child fuel s cur n xs (c ∷ cs) kind ch few no_slash some_char short =
    rw
      (
        path_component-whole 31 (c ∷ cs) no_slash (omega arith),
        kind,
        find_child-named fuel s.nodes (s.nodes cur).first_child xs (c ∷ cs) ch few,
      )
      (elim (Bool-cases (named s.nodes xs (c ∷ cs) == 0)) [
        | inl e ↦ let null : named s.nodes xs (c ∷ cs) ≡ 0 = ground arith in rw null refl
        | inr e ↦
            let after : (path_component 31 (c ∷ cs)).1 ≡ [] =
              ap (λ (q : List ℕ × List ℕ). q.1)
                (path_component-whole 31 (c ∷ cs) no_slash (omega arith)) in
            rw (e, after) refl
      ])

-- Where the root is a directory whose children are the nodes `xs`, a lookup of a slash and a name of
-- 1 to 31 characters without a slash gives the first child of that name, or null if there is none;
-- more fuel than there are children is enough.
pub vfs_lookup_lem :
    (fuel : ℕ) (s : Vfs) (xs name : List ℕ)
    → s.g_root ≢ 0
    → (s.nodes s.g_root).kind ≡ dir
    → Children s.nodes (s.nodes s.g_root).first_child xs
    → length xs < fuel
    → NoSlash name
    → 0 < length name
    → length name < 32
    → vfs_lookup fuel s (b'/' ∷ name) ≡ some (named s.nodes xs name)
unfolding vfs_lookup
vfs_lookup_lem fuel s xs [] root kind ch few no_slash some_char short = absurd (omega arith)
vfs_lookup_lem fuel s xs (c ∷ cs) root kind ch few no_slash some_char short =
    let some_root : (s.g_root == 0) ≡ false = ground (arith, root) in
    simp some_root
      (walk-child fuel s s.g_root (length cs) xs (c ∷ cs) kind ch few no_slash some_char short)
