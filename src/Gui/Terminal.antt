-- ===== src/Gui/Terminal.antt =====
-- The terminal's text in src/kernel/gui.cpp. `cells` gives the character at a row and a column; a string
-- is its characters without the final NUL.
pub mod Cells
pub mod Lines
pub mod Shown
mod Tests
use paradox_os.Base.{
  Bool, List, [], for_range, if◌then◌else◌, leb, ltb, not, suc, true, zero, ℕ, ◌%◌, ◌&&◌, ◌+◌, ◌-◌,
  ◌==◌, ◌∷◌,
}

abbrev pub term_cols : ℕ
term_cols = 96

abbrev pub term_rows : ℕ
term_rows = 36

pub record Term : Type 0 where
  pub cells : ℕ → ℕ → ℕ
  pub cur_row : ℕ
  pub cur_col : ℕ
  pub dirty : Bool

abbrev pub write_cell : Term → ℕ → ℕ → ℕ → Term
write_cell s r c v = record s { cells = λ i j. if (i == r) && (j == c) then v else s.cells i j }

unfoldable pub term_clear : Term → Term
term_clear s =
    let t = for_range term_rows 0 (λ r. for_range term_cols 0 (λ c u. write_cell u r c 32)) s in
    record t { cur_row = 0; cur_col = 0; dirty = true }

unfoldable pub clear_row : Term → Term
clear_row = for_range term_cols 0 (λ c u. write_cell u (term_rows - 1) c 32)

unfoldable pub move_rows : Term → Term
move_rows =
    for_range (term_rows - 1) 0
      (λ r. for_range term_cols 0 (λ c u. write_cell u r c (u.cells (r + 1) c)))

unfoldable pub term_scroll_one : Term → Term
term_scroll_one s = clear_row (move_rows s)

unfoldable pub term_newline : Term → Term
term_newline s =
    let t : Term = record s { cur_col = 0; cur_row = s.cur_row + 1 } in
    if leb term_rows t.cur_row then record (term_scroll_one t) { cur_row = term_rows - 1 } else t

-- The case of a character that is shown.
unfoldable pub make_room : Term → Term
make_room s = if leb term_cols s.cur_col then term_newline s else s

unfoldable pub show_char : Term → ℕ → Term
show_char s c =
    let t = make_room s in
    record (write_cell t t.cur_row t.cur_col c) { cur_col = t.cur_col + 1; dirty = true }

-- The do-while loop of a tab, with the rounds left.
unfoldable pub tab_loop : ℕ → Term → Term
tab_loop zero s = s
tab_loop (suc n) s =
    let t = show_char s 32 in
    let rest = tab_loop n t in if not (t.cur_col % 8 == 0) then rest else t

-- The five cases of the character.
unfoldable pub term_act : Term → ℕ → Term
term_act s c =
    if c == 10
    then term_newline s
    else if c == 13
    then record s { cur_col = 0 }
    else if c == 8
    then (if ltb 0 s.cur_col
        then record (write_cell s s.cur_row (s.cur_col - 1) 32) { cur_col = s.cur_col - 1 }
        else s)
    else if c == 9
    then tab_loop 8 s
    else if leb 32 c && ltb c 127
    then show_char s c
    else s

unfoldable pub gui_term_putc : Term → ℕ → Term
gui_term_putc s c = record (term_act s c) { dirty = true }

unfoldable pub gui_term_puts : Term → List ℕ → Term
gui_term_puts s [] = s
gui_term_puts s (c ∷ cs) = gui_term_puts (gui_term_putc s c) cs
