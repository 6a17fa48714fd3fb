-- ===== src/Vfs.antt =====
-- The in-memory file system, src/kernel/vfs.cpp with src/include/vfs.h. A node is a pointer (0 is
-- null), and `nodes` gives the node at each pointer. A string is its characters without the final NUL.
-- `buffer` gives the characters behind `content`, of which the first `len` are the text; the buffers of
-- two nodes do not overlap.
pub mod Buffer
pub mod Files
pub mod Lookup
mod Tests
use paradox_os.Base.{
  Bool, List, Option, [], false, for_range, if◌then◌else◌, leb, length, ltb, none, not, reverse,
  some, suc, take, true, zero, ℕ, ◌%◌, ◌&&◌, ◌*◌, ◌++◌, ◌+◌, ◌-◌, ◌==◌, ◌^◌, ◌||◌, ◌∷◌,
}
use paradox_os.Heap.{Heap, kmalloc, kfree, release}

pub data VfsKind : Type 0 where
  dir file exec : VfsKind

pub record VfsNode : Type 0 where
  pub name : List ℕ
  pub kind : VfsKind
  pub parent : ℕ
  pub first_child : ℕ
  pub next : ℕ
  pub content : ℕ
  pub buffer : ℕ → ℕ
  pub len : ℕ
  pub cap : ℕ
  pub exec_fn : ℕ
  pub description : List ℕ

-- `n` characters of a buffer from `i` on
unfoldable pub chars : (ℕ → ℕ) → ℕ → ℕ → List ℕ
chars b i zero = []
chars b i (suc n) = b i ∷ chars b (i + 1) n

abbrev pub text_of : VfsNode → List ℕ
text_of n = chars n.buffer 0 n.len

-- `content[i] = c`
abbrev pub write_char : (ℕ → ℕ) → ℕ → ℕ → ℕ → ℕ
write_char b i c = λ j. if j == i then c else b j

-- `mem_copy` to the buffer from `i` on
unfoldable pub mem_copy : (ℕ → ℕ) → ℕ → List ℕ → ℕ → ℕ
mem_copy b i [] = b
mem_copy b i (c ∷ cs) = mem_copy (write_char b i c) (i + 1) cs

-- `calls` collects the calls of `exec_fn`, with their arguments.
pub record Vfs : Type 0 where
  pub nodes : ℕ → VfsNode
  pub g_root : ℕ
  pub heap : Heap
  pub calls : List (ℕ × List ℕ)

-- A write through the pointer `p`.
abbrev pub put_node : Vfs → ℕ → VfsNode → Vfs
put_node s p v = record s { nodes = λ q. if q == p then v else s.nodes q }

abbrev pub is_file : VfsKind → Bool
is_file file = true
is_file _ = false

abbrev pub is_dir : VfsKind → Bool
is_dir dir = true
is_dir _ = false

abbrev pub is_exec : VfsKind → Bool
is_exec exec = true
is_exec _ = false

-- `str_eq` of two strings
abbrev pub str_eq : List ℕ → List ℕ → Bool
str_eq [] [] = true
str_eq (a ∷ cs) (b ∷ ds) = if a == b then str_eq cs ds else false
str_eq _ _ = false

-- `sizeof(vfs_node)`
abbrev pub node_size : ℕ
node_size = 104

-- The last of the nodes that `next` links, on fuel.
pub last_child : ℕ → (ℕ → VfsNode) → ℕ → Option ℕ
last_child zero nodes p = none
last_child (suc fuel) nodes p =
    let rest = last_child fuel nodes (nodes p).next in if (nodes p).next == 0 then some p else rest

-- The node is put behind the last child of its parent.
pub append_child : ℕ → Vfs → ℕ → ℕ → Option Vfs
append_child fuel s parent n =
    if parent == 0
    then some s
    else if (s.nodes parent).first_child == 0
    then some (put_node s parent (record (s.nodes parent) { first_child = n }))
    else elim (last_child fuel s.nodes (s.nodes parent).first_child) [
      | none ↦ none
      | some p ↦ some (put_node s p (record (s.nodes p) { next = n }))
    ]

pub alloc_node : ℕ → Vfs → List ℕ → VfsKind → ℕ → Option (ℕ × Vfs)
alloc_node fuel s name kind parent =
    let (n, h) = kmalloc s.heap node_size in
    let t : Vfs = record s { heap = h } in
    if n == 0
    then some (0, t)
    else let u = put_node t n (record {
      name = take 31 name;
      kind = kind;
      parent = parent;
      first_child = 0;
      next = 0;
      content = 0;
      buffer = λ i. 0;
      len = 0;
      cap = 0;
      exec_fn = 0;
      description = [];
    }) in
      elim (append_child fuel u parent n) [ none ↦ none | some v ↦ some (n, v) ]

pub mkdir_at : ℕ → Vfs → ℕ → List ℕ → Option (ℕ × Vfs)
mkdir_at fuel s parent name = alloc_node fuel s name dir parent

pub mkexec_at : ℕ → Vfs → ℕ → List ℕ → ℕ → List ℕ → Option (ℕ × Vfs)
mkexec_at fuel s parent name fn desc = elim (alloc_node fuel s name exec parent) [
  | none ↦ none
  | some (n, t) ↦ some (
    n,
    if n == 0 then t else put_node t n (record (t.nodes n) { exec_fn = fn; description = desc }),
  )
]

-- The doubling loop, on `uint32_t`; a capacity that wraps to 0 would never end it.
unfoldable pub grow : ℕ → ℕ → ℕ → Option ℕ
grow zero newcap need = none
grow (suc fuel) newcap need =
    let rest = grow fuel (newcap * 2 % 2 ^ 32) need in if ltb newcap need then rest else some newcap

-- The new buffer, which holds what the memory held: the old characters are copied if there is an old
-- buffer.
unfoldable pub copied : VfsNode → (ℕ → ℕ) → ℕ → ℕ
copied v fresh =
    if not (v.content == 0)
    then for_range v.len 0 (λ i b. write_char b i (v.buffer i)) fresh
    else fresh

-- `none` if the doubling does not end.
unfoldable pub ensure_cap : Vfs → ℕ → ℕ → Option (Bool × Vfs)
ensure_cap s f need =
    if leb need (s.nodes f).cap
    then some (true, s)
    else elim (grow 33 (if (s.nodes f).cap == 0 then 64 else (s.nodes f).cap) need) [
      | none ↦ none
      | some newcap ↦
          let (nb, h) = kmalloc s.heap newcap in
          if nb == 0
          then some (false, record s { heap = h })
          else let h' = if not ((s.nodes f).content == 0) then kfree h (s.nodes f).content else h in
            some (
              true,
              put_node (record s { heap = h' }) f
                  (record (s.nodes f) {
                    content = nb;
                    buffer = copied (s.nodes f) (λ i. h.bytes (nb + i));
                    cap = newcap;
                  }),
            )
    ]

-- The node is changed once the capacity is there.
unfoldable pub store : Option (Bool × Vfs) → ℕ → (VfsNode → VfsNode) → Option (Bool × Vfs)
store none f change = none
store (some (false, t)) f change = some (false, t)
store (some (true, t)) f change = some (true, put_node t f (change (t.nodes f)))

unfoldable pub vfs_write : Vfs → ℕ → List ℕ → Option (Bool × Vfs)
vfs_write s f text =
    if (f == 0) || not (is_file (s.nodes f).kind)
    then some (false, s)
    else store (ensure_cap s f ((length text + 1) % 2 ^ 32)) f (λ v. record v {
      buffer = write_char (mem_copy v.buffer 0 text) (length text) 0;
      len = length text;
    })

unfoldable pub vfs_append_char : Vfs → ℕ → ℕ → Option (Bool × Vfs)
vfs_append_char s f c =
    if (f == 0) || not (is_file (s.nodes f).kind)
    then some (false, s)
    else store (ensure_cap s f (((s.nodes f).len + 2) % 2 ^ 32)) f (λ v. record v {
      buffer = write_char (write_char v.buffer v.len c) (v.len + 1) 0;
      len = v.len + 1;
    })

unfoldable pub vfs_pop_char : Vfs → ℕ → Bool × Vfs
vfs_pop_char s f =
    let v = s.nodes f in
    if (f == 0) || (not (is_file v.kind) || (v.len == 0)) then (false, s) else (
      true,
      put_node s f (record v {
        buffer = if not (v.content == 0) then write_char v.buffer (v.len - 1) 0 else v.buffer;
        len = v.len - 1;
      }),
    )

pub mkfile_at : ℕ → Vfs → ℕ → List ℕ → List ℕ → Option (ℕ × Vfs)
mkfile_at fuel s parent name initial = elim (alloc_node fuel s name file parent) [
  | none ↦ none
  | some (n, t) ↦
      if (n == 0) || (length initial == 0)
      then some (n, t)
      else elim (vfs_write t n initial) [ none ↦ none | some (ok, u) ↦ some (n, u) ]
]

-- The next component of a path, at most 31 characters, and what follows it.
pub path_component : ℕ → List ℕ → List ℕ × List ℕ
path_component room [] = ([], [])
path_component zero (c ∷ cs) = ([], c ∷ cs)
path_component (suc room) (c ∷ cs) =
    let (comp, rest) = path_component room cs in
    if c == b'/' then ([], c ∷ cs) else (c ∷ comp, rest)

abbrev pub skip_slash : List ℕ → List ℕ
skip_slash [] = []
skip_slash (c ∷ cs) = if c == b'/' then cs else c ∷ cs

-- The walk along the children, on fuel: the first one of that name, or null.
pub find_child : ℕ → (ℕ → VfsNode) → ℕ → List ℕ → Option ℕ
find_child zero nodes child comp = none
find_child (suc fuel) nodes child comp =
    let rest = find_child fuel nodes (nodes child).next comp in
    if child == 0 then some 0 else if str_eq (nodes child).name comp then some child else rest

-- The loop of `vfs_lookup`; each round uses at least one character of the path.
pub walk : ℕ → ℕ → Vfs → ℕ → List ℕ → Option ℕ
walk zero fuel s cur p = none
walk (suc rounds) fuel s cur [] = some cur
walk (suc rounds) fuel s cur (c ∷ cs) =
    let (comp, after) = path_component 31 (c ∷ cs) in
    if not (is_dir (s.nodes cur).kind)
    then some 0
    else elim (find_child fuel s.nodes (s.nodes cur).first_child comp) [
      | none ↦ none
      | some child ↦
          let rest = walk rounds fuel s child (skip_slash after) in
          if child == 0 then some 0 else rest
    ]

pub vfs_lookup : ℕ → Vfs → List ℕ → Option ℕ
vfs_lookup fuel s path = elim path [
  | [] ↦ some 0
  | c ∷ cs ↦
      if s.g_root == 0
      then some 0
      else if not (c == b'/')
      then some 0
      else walk (suc (length cs)) fuel s s.g_root cs
]

pub vfs_run : Vfs → ℕ → List ℕ → Vfs
vfs_run s n args =
    if (n == 0) || (not (is_exec (s.nodes n).kind) || ((s.nodes n).exec_fn == 0))
    then s
    else record s { calls = s.calls ++ (((s.nodes n).exec_fn, args) ∷ []) }

-- The nodes from `n` up to the root, 16 at most.
unfoldable pub path_stack : ℕ → Vfs → ℕ → List ℕ
path_stack zero s n = []
path_stack (suc depth) s n =
    let rest = path_stack depth s (s.nodes n).parent in
    if (n == 0) || (n == s.g_root) then [] else n ∷ rest

-- The loop that writes the names, each behind a slash, as far as there is room.
unfoldable pub write_names : ℕ → Vfs → List ℕ → List ℕ → List ℕ
write_names size s out [] = out
write_names size s out (n ∷ ns) =
    let rest =
      write_names size s (out ++ (b'/' ∷ take (size - 1 - (length out + 1)) (s.nodes n).name)) ns in
    if leb size (length out + 1) then out else rest

unfoldable pub vfs_path_of : Vfs → ℕ → ℕ → List ℕ
vfs_path_of s n size =
    if (n == 0) || (size == 0)
    then []
    else if n == s.g_root
    then (if leb 2 size then b'/' ∷ [] else [])
    else let out = write_names size s [] (reverse (path_stack 16 s n)) in
      if (length out == 0) && leb 2 size then b'/' ∷ [] else out
