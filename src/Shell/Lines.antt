-- ===== src/Shell/Lines.antt =====
-- The line that is typed is the line that is run.
use paradox_os.Base.{
  All, Bool, Bool-cases, List, Option, Option-cases, [], ap, arith, false, if◌then◌else◌, inl, inr,
  leb, length, length-append, length-take, ltb, none, refl, some, take, true, ℕ, ◌&&◌, ◌++◌, ◌+◌,
  ◌-◌, ◌<◌, ◌==◌, ◌∙◌, ◌∷◌, ◌≡◌, ◌≢◌, ◌≤◌,
}
use paradox_os.Shell.{Shell, Builtins, print, edit_line, shell_execute, shell_process_char}

abbrev is_shown : ℕ → Bool
is_shown c = leb 32 c && ltb c 127

-- What keys make of a line: a backspace takes the last character back, a character that can be shown
-- is added, and any other key does nothing.
abbrev pub edited : List ℕ → List ℕ → List ℕ
edited line [] = line
edited line (c ∷ keys) =
    edited
      (if c == 8
        then take (length line - 1) line
        else if is_shown c
        then line ++ (c ∷ [])
        else line)
      keys

abbrev pub edits : Shell → List ℕ → Shell
edits s [] = s
edits s (c ∷ keys) = edits (edit_line s c) keys

-- The keys one after the other, as long as the commands end.
abbrev pub type_keys : Builtins → ℕ → Shell → List ℕ → Option Shell
type_keys cmds fuel s [] = some s
type_keys cmds fuel s (c ∷ keys) = elim (shell_process_char cmds fuel s c) [
  | none ↦ none
  | some t ↦ type_keys cmds fuel t keys
]

take_empty : (xs : List ℕ) → length xs ≡ 0 → xs ≡ take (length xs - 1) xs
take_empty [] h = refl
take_empty (x ∷ xs) h = absurd (omega (arith, h))

edit_line_lem :
    (s : Shell) (c : ℕ)
    → length s.line < 255
    → ((edit_line s c).line ≡ (
        if c == 8
        then take (length s.line - 1) s.line
        else if is_shown c
        then s.line ++ (c ∷ [])
        else s.line))
      × ((edit_line s c).vfs ≡ s.vfs)
      × (length (edit_line s c).line ≤ length s.line + 1)
unfolding edit_line
edit_line_lem s c room = elim (Bool-cases (c == 8)) [
  | inl e ↦ elim (Bool-cases (ltb 0 (length s.line))) [
    | inl some_text ↦
        let size = length-take (length s.line - 1) s.line in
        rw (e, some_text) (refl, refl, omega (arith, size))
    | inr empty ↦
        let nothing : s.line ≡ take (length s.line - 1) s.line =
          take_empty s.line (ground (arith, empty)) in
        rw (e, empty) (nothing, refl, omega arith)
  ]
  | inr e ↦ elim (Bool-cases (c == 9)) [
    | inl e2 ↦
        let hidden : is_shown c ≡ false = ground (arith, e2) in
        rw (e, e2, hidden) (refl, refl, omega arith)
    | inr e2 ↦ elim (Bool-cases (is_shown c)) [
      | inl e3 ↦
          let fits : (is_shown c && ltb (length s.line) (256 - 1)) ≡ true =
            ground (arith, e3, room) in
          let size = length-append s.line (c ∷ []) in
          rw (e, e2, fits, e3) (refl, refl, omega (arith, size))
      | inr e3 ↦
          let hidden : (is_shown c && ltb (length s.line) (256 - 1)) ≡ false = ground (arith, e3) in
          rw (e, e2, hidden, e3) (refl, refl, omega arith)
    ]
  ]
]

edits_lem :
    (s : Shell) (keys : List ℕ)
    → length s.line + length keys < 256
    → ((edits s keys).line ≡ edited s.line keys) × ((edits s keys).vfs ≡ s.vfs)
edits_lem s [] room = (refl, refl)
edits_lem s (c ∷ keys) room =
    let one = edit_line_lem s c (omega (arith, room)) in
    let ih = edits_lem (edit_line s c) keys (omega (arith, room, one.2)) in
    (ih.0 ∙ ap (λ line. edited line keys) one.0, ih.1 ∙ one.1)

process_key :
    (cmds : Builtins) (fuel : ℕ) (s : Shell) (c : ℕ)
    → c ≢ 10
    → shell_process_char cmds fuel s c ≡ some (edit_line s c)
unfolding shell_process_char
process_key cmds fuel s c other =
    let not_enter : (c == 10) ≡ false = ground (arith, other) in rw not_enter refl

type_keys-edits :
    (cmds : Builtins) (fuel : ℕ) (s : Shell) (keys more : List ℕ)
    → All (λ c. c ≢ 10) keys
    → type_keys cmds fuel s (keys ++ more) ≡ type_keys cmds fuel (edits s keys) more
type_keys-edits cmds fuel s [] more other = refl
type_keys-edits cmds fuel s (c ∷ keys) more other =
    rw (process_key cmds fuel s c other.0, type_keys)
      (type_keys-edits cmds fuel (edit_line s c) keys more other.1)

abbrev pub new_line : Option Shell → Option Shell
new_line none = none
new_line (some t) = some (record t { line = [] })

-- Enter at the end of a line.
press_enter :
    (cmds : Builtins) (fuel : ℕ) (s : Shell)
    → type_keys cmds fuel s (10 ∷ [])
      ≡ new_line (shell_execute cmds fuel (print s (10 ∷ [])) s.line)
unfolding shell_process_char
press_enter cmds fuel s = elim (Option-cases (shell_execute cmds fuel (print s (10 ∷ [])) s.line)) [
  | inl e ↦ rw (e, type_keys) refl
  | inr (t, e) ↦ rw (e, type_keys) refl
]

-- Keys and then Enter run the line that the keys make of what was typed before, and leave an empty line;
-- until Enter no file is touched. The line with the keys is shorter than 256 characters.
pub type_keys-edited :
    (cmds : Builtins) (fuel : ℕ) (s : Shell) (keys : List ℕ)
    → All (λ c. c ≢ 10) keys
    → length s.line + length keys < 256
    → (type_keys cmds fuel s (keys ++ (10 ∷ []))
        ≡ new_line (shell_execute cmds fuel (print (edits s keys) (10 ∷ [])) (edited s.line keys)))
      × ((edits s keys).vfs ≡ s.vfs)
type_keys-edited cmds fuel s keys other room =
    let line = edits_lem s keys room in
    (
      type_keys-edits cmds fuel s keys (10 ∷ []) other
          ∙ press_enter cmds fuel (edits s keys)
          ∙ ap (λ l. new_line (shell_execute cmds fuel (print (edits s keys) (10 ∷ [])) l)) line.0,
      line.1,
    )
