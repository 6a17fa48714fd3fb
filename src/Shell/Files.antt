-- ===== src/Shell/Files.antt =====
-- The commands on files, `cmd_pwd`, `cmd_ls`, `cmd_cat` and `cmd_cd` of src/kernel/shell.cpp. `fuel` is for
-- the walks along the children; `none` stands for a walk that does not end.
use paradox_os.Base.{
  Bool, Bool-cases, List, Option, [], arith, get_or, if◌then◌else◌, inl, inr, length, none, not,
  some, suc, take, true, zero, ℕ, ◌&&◌, ◌++◌, ◌-◌, ◌==◌, ◌||◌, ◌∷◌, ◌≡◌, ◌≢◌, ◌⊎◌,
}
use paradox_os.Base.Text.{codes}
use paradox_os.Vga.{vga_putchar, print_chars}
use paradox_os.Vfs.{
  Vfs, VfsNode, VfsKind, text_of, is_file, is_dir, is_exec, vfs_lookup, vfs_path_of,
}
use paradox_os.Shell.{Shell, print}

abbrev pub current : Shell → ℕ
current s = if s.cwd == 0 then s.vfs.g_root else s.cwd

-- The first look sets the current directory to the root.
abbrev pub shell_cwd : Shell → ℕ × Shell
shell_cwd s = (current s, record s { cwd = current s })

pub cmd_pwd : Shell → Shell
cmd_pwd s = let (dir, t) = shell_cwd s in print (print t (vfs_path_of t.vfs dir 128)) (10 ∷ [])

abbrev pub kind_name : VfsKind → List ℕ
kind_name VfsKind.dir = codes "DIR "
kind_name VfsKind.exec = codes "EXEC"
kind_name VfsKind.file = codes "FILE"

-- One line of the list. A missing description is empty.
pub list_entry : Shell → VfsNode → Shell
list_entry s n =
    let t = print (print (print s (kind_name n.kind)) (codes "  ")) n.name in
    let u =
      if is_exec n.kind && not (length n.description == 0)
      then print (print t (codes "    ")) n.description
      else t in
    print u (10 ∷ [])

pub list_children : ℕ → Shell → ℕ → Option Shell
list_children zero s c = none
list_children (suc fuel) s c =
    let rest = list_children fuel (list_entry s (s.vfs.nodes c)) (s.vfs.nodes c).next in
    if c == 0 then some s else rest

abbrev pub no_such : List ℕ → Shell → List ℕ → Shell
no_such message s args = print (print (print s message) args) (10 ∷ [])

pub list_node : ℕ → Shell → ℕ → Option Shell
list_node fuel s n =
    if not (is_dir (s.vfs.nodes n).kind)
    then some (print (print s (s.vfs.nodes n).name) (10 ∷ []))
    else list_children fuel s (s.vfs.nodes n).first_child

pub cmd_ls : ℕ → Shell → List ℕ → Option Shell
cmd_ls fuel s args =
    let (dir, t) = shell_cwd s in
    let here = list_node fuel t dir in
    if length args == 0 then here else elim (vfs_lookup fuel t.vfs args) [
      | none ↦ none
      | some target ↦
          let there = list_node fuel t target in
          if target == 0 then some (no_such (codes "ls: no such path: ") t args) else there
    ]

pub show_file : Shell → VfsNode → Shell
show_file s n =
    let t : Shell = record s { vga = print_chars s.vga (text_of n) } in
    if not (length (text_of n) == 0) && not (get_or (text_of n) (length (text_of n) - 1) 0 == 10)
    then record t { vga = vga_putchar t.vga 10 }
    else t

pub cmd_cat : ℕ → Shell → List ℕ → Option Shell
cmd_cat fuel s args =
    if length args == 0
    then some (print s (codes "usage: cat <path>" ++ (10 ∷ [])))
    else elim (vfs_lookup fuel s.vfs args) [
      | none ↦ none
      | some n ↦ some (
          if n == 0
          then no_such (codes "cat: no such file: ") s args
          else if not (is_file (s.vfs.nodes n).kind)
          then print s (codes "cat: not a regular file" ++ (10 ∷ []))
          else show_file s (s.vfs.nodes n))
    ]

-- The path that a relative name stands for, in 159 characters.
pub relative_path : Vfs → ℕ → List ℕ → List ℕ
relative_path s dir args =
    let path = vfs_path_of s dir 160 in
    let slashed =
      if (length path == 0) || not (get_or path (length path - 1) 0 == b'/')
      then take 159 (path ++ (b'/' ∷ []))
      else path in
    take 159 (slashed ++ args)

unfoldable pub enter : Shell → List ℕ → ℕ → Shell
enter s args target =
    if target == 0
    then no_such (codes "cd: no such path: ") s args
    else if not (is_dir (s.vfs.nodes target).kind)
    then print s (codes "cd: not a directory" ++ (10 ∷ []))
    else record s { cwd = target }

abbrev pub is_root_path : List ℕ → Bool
is_root_path args = (length args == 0) || ((get_or args 0 0 == b'/') && (get_or args 1 0 == 0))

abbrev pub is_parent_path : List ℕ → Bool
is_parent_path args =
    (get_or args 0 0 == b'.')
    && ((get_or args 1 0 == b'.') && ((get_or args 2 0 == 0) || (get_or args 2 0 == b'/')))

abbrev pub go_up : Shell → Shell
go_up s =
    if not (s.cwd == 0) && not ((s.vfs.nodes s.cwd).parent == 0)
    then record s { cwd = (s.vfs.nodes s.cwd).parent }
    else s

unfoldable pub enter_found : Option ℕ → Shell → List ℕ → Option Shell
enter_found none s args = none
enter_found (some target) s args = some (enter s args target)

unfoldable pub cmd_cd : ℕ → Shell → List ℕ → Option Shell
cmd_cd fuel s args =
    let (dir, t) = shell_cwd s in
    if is_root_path args
    then some (record s { cwd = s.vfs.g_root })
    else if is_parent_path args
    then some (go_up s)
    else if get_or args 0 0 == b'/'
    then enter_found (vfs_lookup fuel s.vfs args) s args
    else enter_found (vfs_lookup fuel t.vfs (relative_path t.vfs dir args)) t args

-- The current directory is a directory, or it is not set.
abbrev pub InDirectory : Shell → Type 0
InDirectory s = (s.cwd ≡ 0) ⊎ (is_dir (s.vfs.nodes s.cwd).kind ≡ true)

-- The tree: its root is a directory, and so is every parent.
pub record IsTree (s : Vfs) : Type 0 where
  pub root : is_dir (s.nodes s.g_root).kind ≡ true
  pub parents : (n : ℕ) → (s.nodes n).parent ≢ 0 → is_dir (s.nodes (s.nodes n).parent).kind ≡ true

enter-InDirectory :
    (s : Shell) (args : List ℕ) (target : ℕ) → InDirectory s → InDirectory (enter s args target)
unfolding enter
enter-InDirectory s args target h = elim (Bool-cases (target == 0)) [
  | inl e ↦ rw e h
  | inr e ↦ elim (Bool-cases (not (is_dir (s.vfs.nodes target).kind))) [
    | inl other ↦ rw (e, other) h
    | inr dir ↦ rw (e, dir) (inr (ground (arith, dir)))
  ]
]

-- The command ends in a directory, if its walk ends.
abbrev pub EndsIn : Option Shell → Type 0
EndsIn none = Unit
EndsIn (some t) = InDirectory t

enter_found-EndsIn :
    (o : Option ℕ) (s : Shell) (args : List ℕ) → InDirectory s → EndsIn (enter_found o s args)
unfolding enter_found
enter_found-EndsIn none s args h = tt
enter_found-EndsIn (some target) s args h = enter-InDirectory s args target h

current-InDirectory :
    (s : Shell) → IsTree s.vfs → InDirectory s → InDirectory (record s { cwd = current s })
current-InDirectory s tree h = elim (Bool-cases (s.cwd == 0)) [
  | inl e ↦ rw e (inr tree.root)
  | inr e ↦ rw e h
]

go_up-InDirectory : (s : Shell) → IsTree s.vfs → InDirectory s → InDirectory (go_up s)
go_up-InDirectory s tree h =
    elim (Bool-cases (not (s.cwd == 0) && not ((s.vfs.nodes s.cwd).parent == 0))) [
      | inl e ↦ rw e (inr (tree.parents s.cwd (ground (arith, e))))
      | inr e ↦ rw e h
    ]

-- Whatever path is given, the command `cd` leaves the shell in a directory, or as it was before the
-- first look at the current directory.
pub cmd_cd-EndsIn :
    (fuel : ℕ) (s : Shell) (args : List ℕ)
    → IsTree s.vfs
    → InDirectory s
    → EndsIn (cmd_cd fuel s args)
unfolding cmd_cd
cmd_cd-EndsIn fuel s args tree h = elim (Bool-cases (is_root_path args)) [
  | inl e ↦ rw e (inr tree.root)
  | inr e ↦ elim (Bool-cases (is_parent_path args)) [
    | inl e2 ↦ rw (e, e2) (go_up-InDirectory s tree h)
    | inr e2 ↦ elim (Bool-cases (get_or args 0 0 == b'/')) [
      | inl e3 ↦ rw (e, e2, e3) (enter_found-EndsIn (vfs_lookup fuel s.vfs args) s args h)
      | inr e3 ↦
          rw (e, e2, e3)
            (enter_found-EndsIn (vfs_lookup fuel s.vfs (relative_path s.vfs (current s) args))
              (record s { cwd = current s }) args (current-InDirectory s tree h))
    ]
  ]
]
