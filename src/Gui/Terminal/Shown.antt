-- ===== src/Gui/Terminal/Shown.antt =====
-- The text that the terminal shows.
use paradox_os.Base.{
  All, Bool-cases, List, [], ap, arith, false, get_or, if◌then◌else◌, inl, inr, leb, length, ltb,
  refl, subst, suc, sym, true, ℕ, ◌&&◌, ◌+◌, ◌-◌, ◌<◌, ◌==◌, ◌∙◌, ◌∷◌, ◌≡◌, ◌≤◌,
}
use paradox_os.Gui.Terminal.{
  Term, write_cell, show_char, make_room, term_act, gui_term_putc, gui_term_puts,
}

-- The characters that a line can show
abbrev pub IsPrintable : List ℕ → Type 0
IsPrintable cs = All (λ c. (32 ≤ c) × (c < 127)) cs

make_room_refl : (s : Term) → s.cur_col < 96 → make_room s ≡ s
unfolding make_room
make_room_refl s room = let e : leb 96 s.cur_col ≡ false = ground arith in rw e refl

show_char_lem :
    (s : Term) (c : ℕ)
    → s.cur_col < 96
    → show_char s c
      ≡ record (write_cell s s.cur_row s.cur_col c) { cur_col = s.cur_col + 1; dirty = true }
unfolding show_char
show_char_lem s c room =
    ap {A = Term} {B = Term}
      (λ u. record (write_cell u u.cur_row u.cur_col c) { cur_col = u.cur_col + 1; dirty = true })
      (make_room_refl s room)

term_act_printable : (s : Term) (c : ℕ) → 32 ≤ c → c < 127 → term_act s c ≡ show_char s c
unfolding term_act
term_act_printable s c low high =
    let e1 : (c == 10) ≡ false = ground arith in
    let e2 : (c == 13) ≡ false = ground arith in
    let e3 : (c == 8) ≡ false = ground arith in
    let e4 : (c == 9) ≡ false = ground arith in
    let e5 : (leb 32 c && ltb c 127) ≡ true = ground arith in rw (e1, e2, e3, e4, e5) refl

putc_printable :
    (s : Term) (c : ℕ)
    → s.cur_col < 96
    → 32 ≤ c
    → c < 127
    → gui_term_putc s c
      ≡ record (write_cell s s.cur_row s.cur_col c) { cur_col = s.cur_col + 1; dirty = true }
unfolding gui_term_putc
putc_printable s c room low high =
    ap {A = Term} {B = Term} (λ u. record u { dirty = true })
      (term_act_printable s c low high ∙ show_char_lem s c room)

shown_next :
    (s : Term) (c : ℕ) (cs : List ℕ) (i j : ℕ)
    → (if (i == s.cur_row) && (leb (s.cur_col + 1) j && ltb j (s.cur_col + 1 + length cs))
        then get_or cs (j - (s.cur_col + 1)) 0
        else (if (i == s.cur_row) && (j == s.cur_col) then c else s.cells i j))
      ≡ (if (i == s.cur_row) && (leb s.cur_col j && ltb j (s.cur_col + suc (length cs)))
          then get_or (c ∷ cs) (j - s.cur_col) 0
          else s.cells i j)
shown_next s c cs i j = elim (Bool-cases ((i == s.cur_row) && (j == s.cur_col))) [
  | inl hit ↦
      let first : j - s.cur_col ≡ 0 = ground arith in
      let behind : ((i == s.cur_row)
            && (leb (s.cur_col + 1) j && ltb j (s.cur_col + 1 + length cs)))
          ≡ false =
        ground arith in
      let inside : ((i == s.cur_row) && (leb s.cur_col j && ltb j (s.cur_col + suc (length cs))))
          ≡ true =
        ground arith in
      rw (behind, inside, hit, first) refl
  | inr miss ↦
      let same : ((i == s.cur_row) && (leb s.cur_col j && ltb j (s.cur_col + suc (length cs))))
          ≡ ((i == s.cur_row) && (leb (s.cur_col + 1) j && ltb j (s.cur_col + 1 + length cs))) =
        ground arith in
      elim (Bool-cases
        ((i == s.cur_row) && (leb (s.cur_col + 1) j && ltb j (s.cur_col + 1 + length cs)))) [
          | inl within ↦
              let next : j - s.cur_col ≡ suc (j - (s.cur_col + 1)) = ground arith in
              rw (same, within, next) refl
          | inr out ↦ rw (same, out, miss) refl
        ]
]

-- A text of printable characters that fits in the rest of the row is shown there, character by
-- character; no other cell changes, and the cursor stands behind it.
pub gui_term_puts_lem :
    (s : Term) (cs : List ℕ)
    → s.cur_col + length cs ≤ 96
    → IsPrintable cs
    → ((i j : ℕ)
        → (gui_term_puts s cs).cells i j ≡ (
            if (i == s.cur_row) && (leb s.cur_col j && ltb j (s.cur_col + length cs))
            then get_or cs (j - s.cur_col) 0
            else s.cells i j))
      × ((gui_term_puts s cs).cur_row ≡ s.cur_row)
      × ((gui_term_puts s cs).cur_col ≡ s.cur_col + length cs)
unfolding gui_term_puts
gui_term_puts_lem s [] room all = (
  λ i j.
      let off : ((i == s.cur_row) && (leb s.cur_col j && ltb j (s.cur_col + 0))) ≡ false =
        ground arith in
      rw off refl,
  refl,
  omega arith,
)
gui_term_puts_lem s (c ∷ cs) room all =
    let now = putc_printable s c (omega arith) all.0.0 all.0.1 in
    let ih =
      gui_term_puts_lem
        (record (write_cell s s.cur_row s.cur_col c) { cur_col = s.cur_col + 1; dirty = true }) cs
        (omega arith) all.1 in
    subst
      (λ u.
        ((i j : ℕ)
          → (gui_term_puts u cs).cells i j ≡ (
              if (i == s.cur_row) && (leb s.cur_col j && ltb j (s.cur_col + suc (length cs)))
              then get_or (c ∷ cs) (j - s.cur_col) 0
              else s.cells i j))
        × ((gui_term_puts u cs).cur_row ≡ s.cur_row)
        × ((gui_term_puts u cs).cur_col ≡ s.cur_col + suc (length cs)))
      (sym now) (λ i j. ih.0 i j ∙ shown_next s c cs i j, ih.1, ih.2 ∙ omega arith)
