-- ===== src/Vfs/Files.antt =====
-- The content of files: growth of the buffer, writing, appending and removing characters.
use paradox_os.Base.{
  ==_refl, Bool, Bool-cases, List, Option, [], ap, arith, false, false_ne_true, if◌then◌else◌, inl,
  inr, leb, leb→le, length, length-append, ltb, ltb→le, ltb→lt, none, refl, some, suc, sym, take,
  true, zero, ℕ, ◌%◌, ◌*◌, ◌++◌, ◌+◌, ◌-◌, ◌<◌, ◌==◌, ◌^◌, ◌∙◌, ◌∷◌, ◌≡◌, ◌≢◌, ◌≤◌, ◌⊎◌,
}
use mathlib.Core.Path.{subst}
use paradox_os.Heap.{Heap, kmalloc}
use paradox_os.Vfs.{
  Vfs, VfsNode, file, chars, text_of, write_char, mem_copy, copied, grow, ensure_cap, store,
  vfs_write, vfs_append_char, vfs_pop_char,
}
use paradox_os.Vfs.Buffer.{
  length-chars, chars_ext, chars_snoc, chars-write_char, chars-mem_copy, copied_lem,
}

-- What the doubling gives from a capacity that is not 0.
abbrev pub Grown : ℕ → Option ℕ → Type 0
Grown need o = (c : ℕ) × (o ≡ some c) × (need ≤ c) × (c ≤ 64 + 2 * need)

double : (fuel c : ℕ) → ℕ
double zero c = c
double (suc fuel) c = double fuel (c * 2)

grow-Grown :
    (fuel newcap need : ℕ)
    → need ≤ 2 ^ 31
    → newcap < 2 ^ 32
    → newcap ≤ 64 + 2 * need
    → need ≤ double fuel newcap
    → Grown need (grow (suc fuel) newcap need)
unfolding grow double
grow-Grown zero newcap need small word near enough =
    let fits : ltb newcap need ≡ false = ground arith in rw fits (newcap, refl, enough, near)
grow-Grown (suc fuel) newcap need small word near enough = elim (Bool-cases (ltb newcap need)) [
  | inr fits ↦ rw fits (newcap, refl, ltb→le newcap need fits, near)
  | inl less ↦
      let below = ltb→lt newcap need less in
      let whole : newcap * 2 % 2 ^ 32 ≡ newcap * 2 = omega arith in
      rw (less, whole)
        (grow-Grown fuel (newcap * 2) need small (omega arith) (omega (arith, below)) enough)
]

double_ge : (c : ℕ) → 0 < c → 2 ^ 32 ≤ double 32 c
unfolding double
double_ge c h = omega arith

-- The heap refuses a block of `need` bytes or of at most 64 bytes more than twice as many.
abbrev pub NoMemory : Heap → ℕ → Type 0
NoMemory h need = (room : ℕ) × (need ≤ room) × (room ≤ 64 + 2 * need) × ((kmalloc h room).0 ≡ 0)

-- A node without a buffer has no characters.
abbrev pub Owned : VfsNode → Type 0
Owned v = (v.content ≢ 0) ⊎ (v.len ≡ 0)

-- What `ensure_cap` promises: the node has the capacity and keeps everything but its buffer, in which
-- the characters stay, or there is no memory; no other node changes.
pub data Ensured (s : Vfs) (f need : ℕ) : Bool × Vfs → Type 0 where
  grown :
      (t : Vfs) (content room : ℕ) (b : ℕ → ℕ)
      → need ≤ room
      → (t.nodes f ≡ record (s.nodes f) { content = content; buffer = b; cap = room })
      → (Owned (s.nodes f) → (j : ℕ) → j < (s.nodes f).len → b j ≡ (s.nodes f).buffer j)
      → ((q : ℕ) → q ≢ f → t.nodes q ≡ s.nodes q)
      → Ensured s f need (true, t)
  no_memory : (t : Vfs) → t.nodes ≡ s.nodes → NoMemory s.heap need → Ensured s f need (false, t)

ensure_cap-Ensured :
    (s : Vfs) (f need : ℕ)
    → need ≤ 2 ^ 31
    → (s.nodes f).cap < 2 ^ 32
    → (r : Bool × Vfs) × (ensure_cap s f need ≡ some r) × Ensured s f need r
unfolding ensure_cap
ensure_cap-Ensured s f need small word = elim (Bool-cases (leb need (s.nodes f).cap)) [
  | inl e ↦ rw e (
    (true, s),
    refl,
    grown s (s.nodes f).content (s.nodes f).cap (s.nodes f).buffer (leb→le _ _ e) refl
        (λ own j h. refl) (λ q ne. refl),
  )
  | inr e ↦
      let from : ℕ = if (s.nodes f).cap == 0 then 64 else (s.nodes f).cap in
      let pos : 0 < from = ground arith in
      let low : from < 2 ^ 32 = ground (arith, word) in
      let near : from ≤ 64 + 2 * need = ground (arith, e) in
      let g = grow-Grown 32 from need small low near (omega (arith, double_ge from pos)) in
      elim (Bool-cases ((kmalloc s.heap g.0).0 == 0)) [
        | inl null ↦
            let refused : (kmalloc s.heap g.0).0 ≡ 0 = ground (arith, null) in
            rw (e, g.1, null)
              (
                (false, record s { heap = (kmalloc s.heap g.0).1 }),
                refl,
                no_memory _ refl (g.0, g.2, g.3, refused),
              )
        | inr block ↦
            let nb = (kmalloc s.heap g.0).0 in
            let fresh : ℕ → ℕ = λ i. (kmalloc s.heap g.0).1.bytes (nb + i) in
            rw (e, g.1, block)
              (
                _,
                refl,
                grown _ nb g.0 (copied (s.nodes f) fresh) g.2 (rw (==_refl f) refl)
                    (λ own j h. copied_lem (s.nodes f) fresh j own h)
                    (λ q ne. let other : (q == f) ≡ false = ground arith in rw other refl),
              )
      ]
]

-- The node `f` is a file that holds the text, with room for a final NUL, and no other node changed.
pub record Holds (s : Vfs) (f : ℕ) (text : List ℕ) (t : Vfs) : Type 0 where
  pub holds : text_of (t.nodes f) ≡ text
  pub still_file : (t.nodes f).kind ≡ (s.nodes f).kind
  pub room : length text < (t.nodes f).cap
  pub others : (q : ℕ) → q ≢ f → t.nodes q ≡ s.nodes q

-- What a change of the text promises: success, or no change of any node for want of memory.
abbrev pub Stored : Vfs → ℕ → List ℕ → Bool × Vfs → Type 0
Stored s f text r =
    ((r.0 ≡ true) × Holds s f text r.1)
    ⊎ ((r.0 ≡ false) × (r.1.nodes ≡ s.nodes) × NoMemory s.heap (length text + 1))

-- A change of the text ends, and does what it promises.
abbrev pub Ends : Vfs → ℕ → List ℕ → Option (Bool × Vfs) → Type 0
Ends s f text o = (r : Bool × Vfs) × (o ≡ some r) × Stored s f text r

-- A change of a node that has the characters of `f`: it makes the text, and keeps kind and capacity.
module _ (s : Vfs) (f : ℕ) (text : List ℕ) (change : VfsNode → VfsNode)
    (kind_kept : (v : VfsNode) → (change v).kind ≡ v.kind)
    (cap_kept : (v : VfsNode) → (change v).cap ≡ v.cap)
    (makes : (content room : ℕ) (b : ℕ → ℕ)
      → (Owned (s.nodes f) → (j : ℕ) → j < (s.nodes f).len → b j ≡ (s.nodes f).buffer j)
      → text_of (change (record (s.nodes f) { content = content; buffer = b; cap = room }))
        ≡ text) where
  store-Stored :
      (r : Bool × Vfs) → Ensured s f (length text + 1) r → Ends s f text (store (some r) f change)
  unfolding store
  store-Stored r (grown t content room b big at kept others) = (
    _,
    refl,
    inl (
      refl,
      record {
        holds = rw (==_refl f, at) (makes content room b kept);
        still_file = rw (==_refl f) (kind_kept (t.nodes f) ∙ ap (λ (v : VfsNode). v.kind) at);
        room =
            rw (==_refl f)
              (omega (arith, cap_kept (t.nodes f), ap (λ (v : VfsNode). v.cap) at, big));
        others = λ q ne. let other : (q == f) ≡ false = ground arith in rw other (others q ne);
      },
    ),
  )
  store-Stored r (no_memory t same none_left) = (_, refl, inr (refl, same, none_left))

  stored :
      length text < 2 ^ 31
      → (s.nodes f).cap < 2 ^ 32
      → Ends s f text (store (ensure_cap s f (length text + 1)) f change)
  stored small word =
      let e = ensure_cap-Ensured s f (length text + 1) (omega arith) word in
      rw e.1 (store-Stored e.0 e.2)

-- Writing fewer than 2 ^ 31 characters to a file ends: either the file then holds exactly these, with
-- room for the final NUL, or the heap has refused a block for them, of at most 64 bytes more than twice
-- as many as are needed, and every node is as before. No other node changes.
pub vfs_write_lem :
    (s : Vfs) (f : ℕ) (text : List ℕ)
    → f ≢ 0
    → (s.nodes f).kind ≡ file
    → (s.nodes f).cap < 2 ^ 32
    → length text < 2 ^ 31
    → Ends s f text (vfs_write s f text)
unfolding vfs_write
vfs_write_lem s f text ne kind word short =
    let some_node : (f == 0) ≡ false = ground arith in
    let whole : (length text + 1) % 2 ^ 32 ≡ length text + 1 = omega arith in
    rw (some_node, kind, whole)
      (stored s f text _ (λ v. refl) (λ v. refl)
        (λ content room b kept.
          chars-write_char (mem_copy b 0 text) 0 (length text) (length text) 0 (omega arith)
          ∙ chars-mem_copy b 0 text)
        short word)

-- Appending a character to a file of fewer than 2 ^ 31 - 1 characters ends: either the file holds its
-- text with the character behind it, or the heap has refused a block and every node is as before.
pub vfs_append_char_lem :
    (s : Vfs) (f c : ℕ)
    → f ≢ 0
    → (s.nodes f).kind ≡ file
    → (s.nodes f).cap < 2 ^ 32
    → (s.nodes f).len < 2 ^ 31 - 1
    → Owned (s.nodes f)
    → Ends s f (text_of (s.nodes f) ++ (c ∷ [])) (vfs_append_char s f c)
unfolding vfs_append_char
vfs_append_char_lem s f c ne kind word short own =
    let some_node : (f == 0) ≡ false = ground arith in
    let old = s.nodes f in
    let len : ℕ = old.len in
    let text : List ℕ = text_of old ++ (c ∷ []) in
    let size : length text ≡ len + 1 =
      omega (arith, length-append (text_of old) (c ∷ []), length-chars old.buffer 0 len) in
    let whole : (len + 2) % 2 ^ 32 ≡ length text + 1 = omega (arith, size, short) in
    rw (some_node, kind, whole)
      (stored s f text
        (λ v. record v {
          buffer = write_char (write_char v.buffer v.len c) (v.len + 1) 0;
          len = v.len + 1;
        })
        (λ v. refl) (λ v. refl) (λ content room b kept. appended b c len (kept own))
        (omega (arith, size, short)) word)
  where
    appended :
        (b : ℕ → ℕ) (c len : ℕ)
        → ((j : ℕ) → j < len → b j ≡ (s.nodes f).buffer j)
        → chars (write_char (write_char b len c) (len + 1) 0) 0 (len + 1)
          ≡ chars (s.nodes f).buffer 0 len ++ (c ∷ [])
    appended b c len kept =
        let last : write_char b len c (0 + len) ≡ c = ground arith in
        let one_more : len + 1 ≡ suc len = omega arith in
        chars-write_char (write_char b len c) 0 (len + 1) (len + 1) 0 (omega arith)
        ∙ ap (chars (write_char b len c) 0) one_more
        ∙ chars_snoc (write_char b len c) 0 len
        ∙ ap (λ d. chars (write_char b len c) 0 len ++ (d ∷ [])) last
        ∙ ap (λ r. r ++ (c ∷ []))
            (chars-write_char b 0 len len c (omega arith)
              ∙ chars_ext b (s.nodes f).buffer 0 len (λ j h. kept j (omega (arith, h))))

take-snoc : (xs : List ℕ) (c : ℕ) → take (length (xs ++ (c ∷ [])) - 1) (xs ++ (c ∷ [])) ≡ xs
take-snoc [] c = refl
take-snoc (x ∷ xs) c =
    let len : suc (length (xs ++ (c ∷ []))) - 1 ≡ suc (length (xs ++ (c ∷ [])) - 1) =
      omega (arith, length-append xs (c ∷ [])) in
    rw len (ap (λ r. x ∷ r) (take-snoc xs c))

-- A text with a last character is the text before it once that one is gone.
shortened :
    (b : ℕ → ℕ) (n c : ℕ) (text : List ℕ)
    → chars b 0 (suc n) ≡ text ++ (c ∷ [])
    → chars b 0 n ≡ text
shortened b n c text e =
    sym (take-snoc (chars b 0 n) (b (0 + n)))
    ∙ ap (λ r. take (length r - 1) r) (sym (chars_snoc b 0 n) ∙ e)
    ∙ take-snoc text c

succeeded : {s t : Vfs} {f : ℕ} {text : List ℕ} → Stored s f text (true, t) → Holds s f text t
succeeded (inl (ok, h)) = h
succeeded (inr (bad, same, none_left)) = absurd (false_ne_true (sym bad))

-- In a file of fewer than 2 ^ 31 - 1 characters, which has none if it has no buffer: when a character
-- was appended, removing the last character succeeds and gives the old text back, whether the buffer
-- had to grow or not.
pub vfs_pop_char-vfs_append_char :
    (s t : Vfs) (f c : ℕ)
    → f ≢ 0
    → (s.nodes f).kind ≡ file
    → (s.nodes f).cap < 2 ^ 32
    → (s.nodes f).len < 2 ^ 31 - 1
    → Owned (s.nodes f)
    → vfs_append_char s f c ≡ some (true, t)
    → ((vfs_pop_char t f).0 ≡ true) × (text_of ((vfs_pop_char t f).1.nodes f) ≡ text_of (s.nodes f))
unfolding vfs_pop_char
vfs_pop_char-vfs_append_char s t f c ne kind word short own e =
    let a = vfs_append_char_lem s f c ne kind word short own in
    let same : a.0 ≡ (true, t) =
      ap {A = Option (Bool × Vfs)} (λ o. elim o [ none ↦ (false, s) | some r ↦ r ]) (sym a.1 ∙ e) in
    let text : List ℕ = text_of (s.nodes f) in
    let h = succeeded (subst (λ r. Stored s f (text ++ (c ∷ [])) r) same a.2) in
    let kept : (t.nodes f).kind ≡ file = h.still_file ∙ kind in
    let some_node : (f == 0) ≡ false = ground arith in
    let n : ℕ = length text in
    let size : (t.nodes f).len ≡ suc n =
      sym (length-chars (t.nodes f).buffer 0 (t.nodes f).len)
      ∙ ap length h.holds
      ∙ omega (arith, length-append text (c ∷ [])) in
    let some_char : ((t.nodes f).len == 0) ≡ false = ground (arith, size) in
    let before : (t.nodes f).len - 1 ≡ n = omega (arith, size) in
    let left =
      shortened (t.nodes f).buffer n c text
        (ap (chars (t.nodes f).buffer 0) (sym size) ∙ h.holds) in
    rw (some_node, kept, some_char)
      (
        refl,
        rw (==_refl f, before)
            (elim (Bool-cases ((t.nodes f).content == 0)) [
              | inl null ↦ rw null left
              | inr block ↦
                  rw block (chars-write_char (t.nodes f).buffer 0 n n 0 (omega arith) ∙ left)
            ]),
      )
