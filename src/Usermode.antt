-- ===== src/Usermode.antt =====
-- The entry to user mode, src/kernel/usermode.cpp. A string is its characters without the final NUL, and
-- `bytes` gives the byte at each address. The jump itself is the argument `jump`: what the memory and
-- the page allocator are when the program has come back. `behind` is the string that the memory holds
-- behind the end of the buffer: a word that begins there is that string.
pub mod Words
pub mod Writes
pub mod Frame
pub mod Layout
pub mod Start
mod Tests
use paradox_os.Base.{
  Bool, List, [], for_range, if◌then◌else◌, length, ltb, not, suc, zero, ℕ, ◌%◌, ◌&&◌, ◌*◌, ◌+◌,
  ◌-◌, ◌/◌, ◌==◌, ◌||◌, ◌∷◌,
}
use paradox_os.Pmm.{Pmm, pmm_alloc_page, pmm_free_page}

abbrev pub argmax : ℕ
argmax = 16

abbrev pub argbuf_cap : ℕ
argbuf_cap = 256

abbrev pub is_blank : ℕ → Bool
is_blank c = (c == 32) || (c == 9)

-- `while (*p == ' ' || *p == '\t') p++`
unfoldable pub skip_blanks : List ℕ → List ℕ
skip_blanks [] = []
skip_blanks (c ∷ p) = let rest = skip_blanks p in if is_blank c then rest else c ∷ p

-- The characters of one word, as far as the buffer has room behind `abi`, and what follows them.
unfoldable pub take_word : List ℕ → ℕ → List ℕ × List ℕ
take_word [] abi = ([], [])
take_word (c ∷ p) abi =
    let (word, rest) = take_word p (abi + 1) in
    if not (is_blank c) && ltb (abi + 1) argbuf_cap then (c ∷ word, rest) else ([], c ∷ p)

-- The place behind a word of the buffer: the NUL is written if there is room for it.
abbrev pub behind_word : ℕ → List ℕ → ℕ
behind_word abi word =
    if ltb (abi + length word) argbuf_cap then abi + length word + 1 else abi + length word

-- The loop, with the places for words that are left. The pointer to a word is set before the word is
-- copied, and a word for which the buffer has no place points behind the buffer.
unfoldable pub tokenize : List ℕ → ℕ → List ℕ → ℕ → List (List ℕ)
tokenize behind zero p abi = []
tokenize behind (suc places) p abi =
    let q = skip_blanks p in
    let (word, rest) = take_word q abi in
    let later = tokenize behind places rest (behind_word abi word) in
    if length q == 0 then [] else (if ltb abi argbuf_cap then word else behind) ∷ later

-- The name of the program, and the words of its arguments.
unfoldable pub all_tokens : List ℕ → List ℕ → List ℕ → List (List ℕ)
all_tokens behind prog_name args = prog_name ∷ tokenize behind (argmax - 1) args 0

pub record UserMemory : Type 0 where
  pub bytes : ℕ → ℕ
  pub pmm : Pmm

abbrev pub write_byte : (ℕ → ℕ) → ℕ → ℕ → ℕ → ℕ
write_byte m a v = λ b. if b == a then v else m b

-- A string with its NUL
unfoldable pub write_string : (ℕ → ℕ) → ℕ → List ℕ → ℕ → ℕ
write_string m a [] = write_byte m a 0
write_string m a (c ∷ cs) = write_string (write_byte m a c) (a + 1) cs

-- A word of 64 bits, the lowest byte first
unfoldable pub write_word : ℕ → (ℕ → ℕ) → ℕ → ℕ → ℕ → ℕ
write_word zero m a v = m
write_word (suc n) m a v = write_word n (write_byte m a (v % 256)) (a + 1) (v / 256)

-- The loop from the last string to the first: the strings go below `sp`. It gives the pointers to them.
unfoldable pub push_strings : (ℕ → ℕ) → ℕ → List (List ℕ) → (ℕ → ℕ) × ℕ × List ℕ
push_strings m sp [] = (m, sp, [])
push_strings m sp (t ∷ ts) =
    let (m1, sp1, ptrs) = push_strings m sp ts in
    let sp2 = sp1 - (length t + 1) in (write_string m1 sp2 t, sp2, sp2 ∷ ptrs)

abbrev pub push_word : (ℕ → ℕ) → ℕ → ℕ → (ℕ → ℕ) × ℕ
push_word m sp v = (write_word 8 m (sp - 8) v, sp - 8)

-- The loop over the pointers, the last one first.
unfoldable pub push_pointers : (ℕ → ℕ) → ℕ → List ℕ → (ℕ → ℕ) × ℕ
push_pointers m sp [] = (m, sp)
push_pointers m sp (a ∷ ptrs) = let (m1, sp1) = push_pointers m sp ptrs in push_word m1 sp1 a

-- The frame on the page at `stack`: what the memory is, and the stack pointer.
unfoldable pub build_frame : (ℕ → ℕ) → ℕ → List (List ℕ) → (ℕ → ℕ) × ℕ
build_frame m stack tokens =
    let filled = for_range 4096 0 (λ i u. write_byte u (stack + i) 0xCC) m in
    let (m1, sp1, ptrs) = push_strings filled (stack + 4096) tokens in
    let (m2, sp2) = push_word m1 (sp1 / 16 * 16) 0 in
    let (m3, sp3) = push_word m2 sp2 0 in
    let (m4, sp4) = push_pointers m3 sp3 ptrs in push_word m4 sp4 (length tokens)

pub usermode_run_with_args :
    (ℕ → ℕ → UserMemory → UserMemory) → List ℕ → UserMemory → ℕ → List ℕ → List ℕ → UserMemory
usermode_run_with_args jump behind s entry_rip prog_name args =
    let (stack, pmm1) = pmm_alloc_page s.pmm in
    let t : UserMemory = record s { pmm = pmm1 } in
    if stack == 0
    then t
    else let (m, sp) = build_frame t.bytes stack (all_tokens behind prog_name args) in
      let back = jump entry_rip sp (record t { bytes = m }) in
      record back { pmm = pmm_free_page back.pmm stack }
