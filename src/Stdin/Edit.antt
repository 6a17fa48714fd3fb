-- ===== src/Stdin/Edit.antt =====
-- Typing a line and reading it.
use paradox_os.Base.{
  All, Bool-cases, List, [], ap, arith, false, if◌then◌else◌, inl, inr, length, length-append,
  length-take, ltb, ltb→lt, lt→ltb, min, refl, some, suc, take, take-length, true, zero, ℕ, ◌++◌,
  ◌+◌, ◌-◌, ◌<◌, ◌==◌, ◌∙◌, ◌∷◌, ◌≡◌, ◌≤◌,
}
use paradox_os.Stdin.{
  Stdin, g_len, backspace, newline, is_enter, line_cap, stdin_push, stdin_read_line, push_all,
}

-- The line that the keys make, as an editor with no limit: a backspace takes the last character.
unfoldable pub edited : List ℕ → List ℕ → List ℕ
edited line [] = line
edited line (c ∷ cs) =
    let shorter = edited (take (length line - 1) line) cs in
    let longer = edited (line ++ (c ∷ [])) cs in if c == backspace then shorter else longer

-- No key ends the line.
abbrev pub NoEnter : List ℕ → Type 0
NoEnter = All (λ c. is_enter c ≡ false)

take_all : (xs : List ℕ) (n : ℕ) → length xs ≤ n → take (min (length xs) n) xs ≡ xs
take_all xs n h = let e : min (length xs) n ≡ length xs = omega arith in rw e (take-length xs)

take_none : (xs : List ℕ) (n : ℕ) → length xs ≡ 0 → xs ≡ take n xs
take_none [] zero h = refl
take_none [] (suc n) h = refl
take_none (x ∷ xs) n h = absurd (omega arith)

-- One key that does not end the line.
push_key :
    (s : Stdin) (c : ℕ)
    → s.ready ≡ false
    → is_enter c ≡ false
    → length s.line + 1 < line_cap
    → ((stdin_push s c).ready ≡ false)
      × ((stdin_push s c).line
          ≡ (if c == backspace then take (length s.line - 1) s.line else s.line ++ (c ∷ [])))
unfolding stdin_push
push_key s c r no_enter room = elim (Bool-cases (c == backspace)) [
  | inl back ↦ elim (Bool-cases (ltb 0 (g_len s))) [
    | inl some_char ↦ rw (r, back, some_char) (refl, refl)
    | inr empty ↦ rw (r, back, empty) (refl, take_none s.line _ (ground arith))
  ]
  | inr char ↦
      let fits : ltb (g_len s + 1) line_cap ≡ true = lt→ltb _ _ room in
      rw (r, char, no_enter, fits) (refl, refl)
]

-- A key makes the line longer by one character at most.
length-key :
    (line : List ℕ) (c : ℕ)
    → length (if c == backspace then take (length line - 1) line else line ++ (c ∷ []))
      ≤ length line + 1
length-key line c = elim (Bool-cases (c == backspace)) [
  | inl back ↦ rw back (omega (arith, length-take (length line - 1) line))
  | inr char ↦ rw char (omega (arith, length-append line (c ∷ [])))
]

push_all-edited :
    (s : Stdin) (keys : List ℕ)
    → s.ready ≡ false
    → NoEnter keys
    → length s.line + length keys < line_cap
    → ((push_all s keys).ready ≡ false) × ((push_all s keys).line ≡ edited s.line keys)
unfolding push_all edited
push_all-edited s [] r keys room = (r, refl)
push_all-edited s (c ∷ cs) r keys room =
    let step = push_key s c r keys.0 (omega arith) in
    let fits : length (stdin_push s c).line + length cs < line_cap =
      rw step.1 (omega (arith, length-key s.line c)) in
    let rest = push_all-edited (stdin_push s c) cs step.0 keys.1 fits in
    (rest.0, rest.1 ∙ ap (λ l. edited l cs) step.1 ∙ ground arith)

length-edited : (line keys : List ℕ) → length (edited line keys) ≤ length line + length keys
unfolding edited
length-edited line [] = omega arith
length-edited line (c ∷ cs) = ground (
  arith,
  length-edited (take (length line - 1) line) cs,
  length-take (length line - 1) line,
  length-edited (line ++ (c ∷ [])) cs,
  length-append line (c ∷ []),
)

enter_ends :
    (s : Stdin) (cap : ℕ)
    → s.ready ≡ false
    → length s.line < line_cap
    → line_cap ≤ cap
    → stdin_read_line (stdin_push s newline) cap
      ≡ some (
        s.line ++ (newline ∷ []),
        record { line = []; ready = false; echo = s.echo ++ (newline ∷ []) },
      )
unfolding stdin_push stdin_read_line
enter_ends s cap r room big =
    let fits : ltb (g_len s) line_cap ≡ true = lt→ltb _ _ room in
    rw (r, fits)
      (rw (
        take_all (s.line ++ (newline ∷ [])) cap
          (omega (arith, length-append s.line (newline ∷ [])))))

-- From an empty line that is not ready: fewer than 256 keys, none of which ends the line, then
-- Enter and a read of at least 256 characters give the line that an editor without a limit makes of
-- the keys, with a newline behind it; the buffer is empty and not ready afterwards.
pub read-typed :
    (s : Stdin) (keys : List ℕ) (cap : ℕ)
    → s.line ≡ []
    → s.ready ≡ false
    → NoEnter keys
    → length keys < line_cap
    → line_cap ≤ cap
    → stdin_read_line (stdin_push (push_all s keys) newline) cap
      ≡ some (
        edited [] keys ++ (newline ∷ []),
        record { line = []; ready = false; echo = (push_all s keys).echo ++ (newline ∷ []) },
      )
read-typed s keys cap empty r no_enter few big =
    let none_yet : length s.line ≡ 0 = ap length empty in
    let t = push_all-edited s keys r no_enter (omega arith) in
    let same : (push_all s keys).line ≡ edited [] keys = t.1 ∙ ap (λ l. edited l keys) empty in
    let short : length (push_all s keys).line < line_cap =
      rw same (omega (arith, length-edited [] keys)) in
    enter_ends (push_all s keys) cap t.0 short big
    ∙ ap
        (λ l. some (
          l ++ (newline ∷ []),
          record { line = []; ready = false; echo = (push_all s keys).echo ++ (newline ∷ []) },
        ))
        same

-- The array holds the line, and there is room for the newline while the line is not ready.
pub record IsValid (s : Stdin) : Type 0 where
  pub fits : length s.line ≤ line_cap
  pub room : s.ready ≡ false → length s.line < line_cap

-- `stdin_push` never writes past the end of the array, and keeps room for the newline.
pub stdin_push-IsValid : {s : Stdin} (c : ℕ) → IsValid s → IsValid (stdin_push s c)
unfolding stdin_push
stdin_push-IsValid {s} c v = elim (Bool-cases s.ready) [
  | inl r ↦ simp r v
  | inr r ↦
      let room = v.room r in
      elim (Bool-cases (c == backspace)) [
        | inl back ↦ elim (Bool-cases (ltb 0 (g_len s))) [
          | inl e ↦
              rw (r, back, e)
                (record {
                  fits = omega (arith, length-take (g_len s - 1) s.line, v.fits);
                  room = λ _. omega (arith, length-take (g_len s - 1) s.line, room);
                })
          | inr e ↦ simp (r, back, e) v
        ]
        | inr char ↦ elim (Bool-cases (is_enter c)) [
          | inl enter ↦
              let fits : ltb (g_len s) line_cap ≡ true = lt→ltb _ _ room in
              rw (r, char, enter, fits)
                (record {
                  fits = omega (arith, length-append s.line (newline ∷ []), room);
                  room = λ bad. absurd (ground (arith, bad));
                })
          | inr plain ↦ elim (Bool-cases (ltb (g_len s + 1) line_cap)) [
            | inl e ↦
                let small = ltb→lt _ _ e in
                rw (r, char, plain, e)
                  (record {
                    fits = omega (arith, length-append s.line (c ∷ []), small);
                    room = λ _. omega (arith, length-append s.line (c ∷ []), small);
                  })
            | inr e ↦ simp (r, char, plain, e) v
          ]
        ]
      ]
]
