-- ===== src/Gui/Terminal/Lines.antt =====
-- The cursor of the terminal.
use paradox_os.Base.{
  Bool-cases, ap, arith, if◌then◌else◌, inl, inr, leb, ltb, not, refl, suc, zero, ℕ, ◌%◌, ◌&&◌, ◌+◌,
  ◌<◌, ◌==◌, ◌≡◌, ◌≤◌,
}
use paradox_os.Gui.Terminal.{
  Term, term_newline, show_char, make_room, term_act, tab_loop, gui_term_putc,
}
use paradox_os.Gui.Terminal.Cells.{term_scroll_one_lem}

-- The cursor is in a row of the terminal, and at most behind its last cell.
pub record IsValid (s : Term) : Type 0 where
  pub row : s.cur_row < 36
  pub col : s.cur_col ≤ 96

term_newline_col : (s : Term) → (term_newline s).cur_col ≡ 0
unfolding term_newline
term_newline_col s = elim (Bool-cases (leb 36 (s.cur_row + 1))) [
  | inl e ↦ rw e (
      ap (λ (t : Term). t.cur_col)
        (term_scroll_one_lem (record s { cur_col = 0; cur_row = s.cur_row + 1 })).1)
  | inr e ↦ rw e refl
]

term_newline_row :
    (s : Term) → (term_newline s).cur_row ≡ (if leb 36 (s.cur_row + 1) then 35 else s.cur_row + 1)
unfolding term_newline
term_newline_row s = elim (Bool-cases (leb 36 (s.cur_row + 1))) [
  | inl e ↦ rw e refl
  | inr e ↦ rw e refl
]

term_newline-IsValid : (s : Term) → IsValid s → IsValid (term_newline s)
term_newline-IsValid s v = record {
  row = let r = term_newline_row s in ground (arith, r, v.row);
  col = omega (arith, term_newline_col s);
}

show_char_col :
    (s : Term) (c : ℕ) → (show_char s c).cur_col ≡ (if leb 96 s.cur_col then 1 else s.cur_col + 1)
unfolding show_char make_room
show_char_col s c = elim (Bool-cases (leb 96 s.cur_col)) [
  | inl e ↦ rw (e, term_newline_col s) refl
  | inr e ↦ rw e (omega arith)
]

show_char_row : (s : Term) (c : ℕ) → IsValid s → (show_char s c).cur_row < 36
unfolding show_char make_room
show_char_row s c v = elim (Bool-cases (leb 96 s.cur_col)) [
  | inl e ↦ rw e (term_newline-IsValid s v).row
  | inr e ↦ rw e v.row
]

show_char-IsValid : (s : Term) (c : ℕ) → IsValid s → IsValid (show_char s c)
show_char-IsValid s c v = record {
  row = show_char_row s c v;
  col = let col = show_char_col s c in ground (arith, col, v.col);
}

tab_loop-IsValid : (n : ℕ) (s : Term) → IsValid s → IsValid (tab_loop n s)
unfolding tab_loop
tab_loop-IsValid zero s v = v
tab_loop-IsValid (suc n) s v =
    let t = show_char-IsValid s 32 v in
    elim (Bool-cases (not ((show_char s 32).cur_col % 8 == 0))) [
      | inl e ↦ rw e (tab_loop-IsValid n (show_char s 32) t)
      | inr e ↦ rw e t
    ]

term_act-IsValid : (s : Term) (c : ℕ) → IsValid s → IsValid (term_act s c)
unfolding term_act
term_act-IsValid s c v = elim (Bool-cases (c == 10)) [
  | inl e ↦ rw e (term_newline-IsValid s v)
  | inr e ↦ elim (Bool-cases (c == 13)) [
    | inl e2 ↦ rw (e, e2) (record { row = v.row; col = omega arith })
    | inr e2 ↦ elim (Bool-cases (c == 8)) [
      | inl e3 ↦ elim (Bool-cases (ltb 0 s.cur_col)) [
        | inl some_left ↦
            simp (e, e2, e3, some_left) (record { row = v.row; col = omega (arith, v.col) })
        | inr none_left ↦ simp (e, e2, e3, none_left) v
      ]
      | inr e3 ↦ elim (Bool-cases (c == 9)) [
        | inl e4 ↦ let t = tab_loop-IsValid 8 s v in rw (e, e2, e3, e4) t
        | inr e4 ↦ elim (Bool-cases (leb 32 c && ltb c 127)) [
          | inl e5 ↦ let t = show_char-IsValid s c v in rw (e, e2, e3, e4, e5) t
          | inr e5 ↦ rw (e, e2, e3, e4, e5) v
        ]
      ]
    ]
  ]
]

-- Every character leaves the cursor in the terminal.
pub gui_term_putc-IsValid : (s : Term) (c : ℕ) → IsValid s → IsValid (gui_term_putc s c)
unfolding gui_term_putc
gui_term_putc-IsValid s c v = let t = term_act-IsValid s c v in record { row = t.row; col = t.col }

tab_loop_ends :
    (n : ℕ) (s : Term)
    → s.cur_col ≤ 96
    → 8 ≤ n + s.cur_col % 8
    → ((tab_loop n s).cur_col % 8 ≡ 0) × (tab_loop (suc n) s ≡ tab_loop n s)
unfolding tab_loop
tab_loop_ends zero s inside enough = absurd (omega arith)
tab_loop_ends (suc n) s inside enough =
    let col = show_char_col s 32 in
    elim (Bool-cases ((show_char s 32).cur_col % 8 == 0)) [
      | inl e ↦ rw e (ground arith, refl)
      | inr e ↦
          let left : (show_char s 32).cur_col ≤ 96 = ground (arith, col) in
          let more : 8 ≤ n + (show_char s 32).cur_col % 8 = ground (arith, col, e) in
          let ih = tab_loop_ends n (show_char s 32) left more in rw e ih
    ]

-- The loop of a tab ends within eight rounds, wherever the cursor is, and then the cursor is at a
-- multiple of eight columns: its condition is false there, and more rounds change nothing.
pub tab_loop_stops :
    (m : ℕ) (s : Term)
    → s.cur_col ≤ 96
    → ((tab_loop (8 + m) s).cur_col % 8 ≡ 0) × (tab_loop (8 + m) s ≡ tab_loop 8 s)
tab_loop_stops zero s inside = ((tab_loop_ends 8 s inside (omega arith)).0, refl)
tab_loop_stops (suc m) s inside =
    let ih = tab_loop_stops m s inside in
    let next = tab_loop_ends (8 + m) s inside (omega arith) in
    let one : 8 + suc m ≡ suc (8 + m) = omega arith in rw (one, next.1) ih
