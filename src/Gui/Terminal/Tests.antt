-- ===== src/Gui/Terminal/Tests.antt =====
-- Concrete texts.
use paradox_os.Base.{
  List, [], arith, false, get_or, if◌then◌else◌, leb, length, ltb, refl, ℕ, ◌%◌, ◌&&◌, ◌+◌, ◌-◌,
  ◌==◌, ◌∷◌, ◌≡◌,
}
use paradox_os.Gui.Terminal.{
  Term, tab_loop, gui_term_putc, gui_term_puts, show_char, make_room, term_act, term_newline,
}
use paradox_os.Gui.Terminal.Lines.{IsValid, gui_term_putc-IsValid, tab_loop_stops}
use paradox_os.Gui.Terminal.Shown.{IsPrintable, gui_term_puts_lem}

abbrev blank : Term
blank = record { cells = λ i j. 32; cur_row = 3; cur_col = 94; dirty = false }

abbrev word : List ℕ
word = 111 ∷ 107 ∷ []

-- A tab from behind the last cell goes on in the next line.
tab_wraps : (gui_term_puts blank (111 ∷ 107 ∷ 9 ∷ [])).cur_col ≡ 8
unfolding gui_term_puts gui_term_putc term_act tab_loop show_char make_room term_newline
tab_wraps = refl

blank-IsValid : IsValid blank
blank-IsValid = record { row = omega arith; col = omega arith }

putc-IsValid : IsValid (gui_term_putc blank 9)
putc-IsValid = gui_term_putc-IsValid blank 9 blank-IsValid

tab_loop_stops_example :
    ((tab_loop (8 + 3) blank).cur_col % 8 ≡ 0) × (tab_loop (8 + 3) blank ≡ tab_loop 8 blank)
tab_loop_stops_example = tab_loop_stops 3 blank (omega arith)

word-IsPrintable : IsPrintable word
word-IsPrintable = ((omega arith, omega arith), ((omega arith, omega arith), tt))

gui_term_puts_lem_example :
    ((i j : ℕ)
      → (gui_term_puts blank word).cells i j ≡ (
          if (i == blank.cur_row) && (leb blank.cur_col j && ltb j (blank.cur_col + length word))
          then get_or word (j - blank.cur_col) 0
          else blank.cells i j))
    × ((gui_term_puts blank word).cur_row ≡ blank.cur_row)
    × ((gui_term_puts blank word).cur_col ≡ blank.cur_col + length word)
gui_term_puts_lem_example = gui_term_puts_lem blank word (omega arith) word-IsPrintable
