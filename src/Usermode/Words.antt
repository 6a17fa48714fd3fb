-- ===== src/Usermode/Words.antt =====
-- How the arguments are split into words.
use paradox_os.Base.{
  Bool, Bool-cases, List, [], ap, arith, false, if◌then◌else◌, inl, inr, length, ltb, not, refl,
  suc, sym, take, true, zero, ℕ, ◌&&◌, ◌+◌, ◌<◌, ◌==◌, ◌∙◌, ◌∷◌, ◌≡◌, ◌≢◌, ◌≤◌, ◌⊎◌,
}
use paradox_os.Usermode.{is_blank, skip_blanks, take_word, tokenize}

-- The word that a text begins with, which may be empty, and the words behind it.
abbrev pub push_some : List ℕ → List (List ℕ) → List (List ℕ)
push_some [] ws = ws
push_some (c ∷ w) ws = (c ∷ w) ∷ ws

abbrev pub split : List ℕ → List ℕ × List (List ℕ)
split [] = ([], [])
split (c ∷ p) =
    if is_blank c then ([], push_some (split p).0 (split p).1) else (c ∷ (split p).0, (split p).1)

-- The words of a text: its longest pieces without blanks, none of them empty.
abbrev pub words : List ℕ → List (List ℕ)
words p = push_some (split p).0 (split p).1

words-skip_blanks : (p : List ℕ) → words (skip_blanks p) ≡ words p
unfolding skip_blanks
words-skip_blanks [] = refl
words-skip_blanks (c ∷ p) = elim (Bool-cases (is_blank c)) [
  | inl e ↦ rw e (words-skip_blanks p)
  | inr e ↦ rw e (rw e refl)
]

length-skip_blanks : (p : List ℕ) → length (skip_blanks p) ≤ length p
unfolding skip_blanks
length-skip_blanks [] = omega arith
length-skip_blanks (c ∷ p) = elim (Bool-cases (is_blank c)) [
  | inl e ↦ rw e (omega (arith, length-skip_blanks p))
  | inr e ↦ rw e (omega arith)
]

-- A text is empty or begins with a character of the kind.
abbrev Begins : Bool → List ℕ → Type 0
Begins b [] = Unit
Begins b (c ∷ p) = is_blank c ≡ b

skip_blanks-Begins : (p : List ℕ) → Begins false (skip_blanks p)
unfolding skip_blanks
skip_blanks-Begins [] = tt
skip_blanks-Begins (c ∷ p) = elim (Bool-cases (is_blank c)) [
  | inl e ↦ rw e (skip_blanks-Begins p)
  | inr e ↦ rw e e
]

-- What the inner loop takes where there is room for all.
record Taken (p : List ℕ) (r : List ℕ × List ℕ) : Type 0 where
  word : r.0 ≡ (split p).0
  later : words r.1 ≡ (split p).1
  size : length r.0 + length r.1 ≡ length p
  stops : Begins true r.1

take_word-Taken : (p : List ℕ) (abi : ℕ) → abi + length p < 256 → Taken p (take_word p abi)
unfolding take_word
take_word-Taken [] abi room = record { word = refl; later = refl; size = refl; stops = tt }
take_word-Taken (c ∷ p) abi room = elim (Bool-cases (is_blank c)) [
  | inl e ↦
      let stop : (not (is_blank c) && ltb (abi + 1) 256) ≡ false = ground (arith, e) in
      rw stop (record { word = rw e refl; later = rw e refl; size = omega arith; stops = e })
  | inr e ↦
      let more : (not (is_blank c) && ltb (abi + 1) 256) ≡ true = ground (arith, e) in
      let ih = take_word-Taken p (abi + 1) (omega arith) in
      rw more (record {
        word = rw e (ap (λ w. c ∷ w) ih.word);
        later = rw e ih.later;
        size = omega (arith, ih.size);
        stops = ih.stops;
      })
]

length-skip_blanks_blank :
    (p : List ℕ) → Begins true p → 0 < length p → suc (length (skip_blanks p)) ≤ length p
unfolding skip_blanks
length-skip_blanks_blank [] h some_text = absurd (omega arith)
length-skip_blanks_blank (c ∷ p) h some_text = rw h (omega (arith, length-skip_blanks p))

skip_blanks_empty : (p : List ℕ) → length p ≡ 0 → length (skip_blanks p) ≡ 0
skip_blanks_empty p h = omega (arith, length-skip_blanks p)

no_words : (p : List ℕ) → length p ≡ 0 → words p ≡ []
no_words [] h = refl
no_words (c ∷ p) h = absurd (omega (arith, h))

-- A text that does not begin with a blank begins with a word.
first_word : (p : List ℕ) → Begins false p → (length p ≢ 0) → words p ≡ (split p).0 ∷ (split p).1
first_word [] h some_text = absurd (some_text refl)
first_word (c ∷ p) h some_text = rw h refl

next_room :
    (abi : ℕ) (word rest : List ℕ)
    → abi + (length word + length rest) < 256
    → Begins true rest
    → (length (skip_blanks rest) ≡ 0) ⊎ (abi + length word + 1 + length (skip_blanks rest) < 256)
next_room abi word rest room stops = elim (Bool-cases (length rest == 0)) [
  | inl e ↦ inl (skip_blanks_empty rest (ground (arith, e)))
  | inr e ↦
      let less = length-skip_blanks_blank rest stops (ground (arith, e)) in
      inr (omega (arith, less, room))
]

-- The loop over the words where the buffer has room for what follows the first blanks.
tokenize-room :
    (behind : List ℕ) (places : ℕ) (p : List ℕ) (abi : ℕ)
    → (length (skip_blanks p) ≡ 0) ⊎ (abi + length (skip_blanks p) < 256)
    → tokenize behind places p abi ≡ take places (words p)
unfolding tokenize
tokenize-room behind zero p abi room = refl
tokenize-room behind (suc places) p abi room = elim (Bool-cases (length (skip_blanks p) == 0)) [
  | inl e ↦
      let nothing : words p ≡ [] =
        sym (words-skip_blanks p) ∙ no_words (skip_blanks p) (ground (arith, e)) in
      rw (e, nothing) refl
  | inr e ↦
      let some_room : abi + length (skip_blanks p) < 256 = ground (arith, e, room) in
      let q = skip_blanks p in
      let taken = take_word-Taken q abi some_room in
      let word = first_word q (skip_blanks-Begins p) (ground (arith, e)) in
      let begins : ltb abi 256 ≡ true = ground (arith, some_room) in
      let inside : ltb (abi + length (take_word q abi).0) 256 ≡ true =
        ground (arith, taken.size, some_room) in
      let next =
        tokenize-room behind places (take_word q abi).1 (abi + length (take_word q abi).0 + 1) (
          next_room abi (take_word q abi).0 (take_word q abi).1
            (omega (arith, taken.size, some_room)) taken.stops) in
      rw (e, begins, inside, next, taken.word, taken.later, ← words-skip_blanks p, word) refl
]

-- Arguments of at most 255 characters are split into exactly their words, of which the program gets
-- as many as there are places.
pub tokenize-words :
    (behind : List ℕ) (places : ℕ) (args : List ℕ)
    → length args < 256
    → tokenize behind places args 0 ≡ take places (words args)
tokenize-words behind places args short =
    tokenize-room behind places args 0 (inr (omega (arith, short, length-skip_blanks args)))
