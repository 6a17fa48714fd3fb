-- ===== src/Vga/Screen.antt =====
-- The cursor stays on the screen, nothing is written behind the screen, and scrolling moves the text up
-- by one line.
use paradox_os.Base.{
  Bool-cases, ap, arith, false, for_range, for_range_inv, if◌then◌else◌, inl, inr, leb, leb→lt, ltb,
  refl, true, ℕ, ◌&&◌, ◌*◌, ◌+◌, ◌/◌, ◌<◌, ◌==◌, ◌∙◌, ◌≡◌, ◌≤◌,
}
use paradox_os.Vga.{
  Vga, vga_width, vga_height, cell, put_cell, move_up, clear_last, vga_scroll, advance, wrap_line,
  vga_putchar,
}

-- The cursor stands on one of the cells of the screen.
pub record IsValid (s : Vga) : Type 0 where
  pub row : s.vga_row < vga_height
  pub col : s.vga_col < vga_width

-- What a loop over the cells from `from` on has written before cell `i`: `f` of the cell.
record Swept (f : ℕ → ℕ) (s : Vga) (from i : ℕ) (t : Vga) : Type 0 where
  done : (j : ℕ) → t.vga_buffer j ≡ (if leb from j && ltb j i then f j else s.vga_buffer j)
  frame : t ≡ record s { vga_buffer = t.vga_buffer }

module _ {f : ℕ → ℕ} {s : Vga} {from : ℕ} where
  Swept-start : Swept f s from from s
  Swept-start = record {
    done = λ j. let out : (leb from j && ltb j from) ≡ false = ground arith in rw out refl;
    frame = refl;
  }

  Swept-put :
      {t : Vga} {i : ℕ} (v : ℕ)
      → from ≤ i
      → v ≡ f i
      → Swept f s from i t
      → Swept f s from (i + 1) (put_cell t i v)
  Swept-put {t} {i} v above e w = record {
    done = λ j. elim (Bool-cases (j == i)) [
      | inl same ↦
          let at : i ≡ j = ground arith in
          let hit : (leb from j && ltb j (i + 1)) ≡ true = ground arith in
          rw (hit, same) (e ∙ ap f at)
      | inr other ↦
          let off : (leb from j && ltb j (i + 1)) ≡ (leb from j && ltb j i) = ground arith in
          rw (off, other) (w.done j)
    ];
    frame =
        ap {A = Vga} {B = Vga}
          (λ u. record u { vga_buffer = λ q. if q == i then v else t.vga_buffer q }) w.frame;
  }

  -- One row of the screen, from cell `base` on.
  Swept-row :
      {t : Vga} (base : ℕ) (put : ℕ → Vga → ℕ)
      → from ≤ base
      → ((x : ℕ) (u : Vga) → x < 80 → Swept f s from (base + x) u → put x u ≡ f (base + x))
      → Swept f s from base t
      → Swept f s from (base + 80) (for_range 80 0 (λ x u. put_cell u (base + x) (put x u)) t)
  Swept-row {t} base put above writes w =
      for_range_inv (λ x u. Swept f s from (base + x) u) _ 80 0 80 t refl
        (λ x u low high v.
          let next : base + x + 1 ≡ base + (x + 1) = omega arith in
          rw (← next)
            (Swept-put {t = u} {i = base + x} (put x u) (omega arith) (writes x u high v) v))
        (let first : base ≡ base + 0 = omega arith in rw (← first) w)

-- The rows from the first on.
Swept-rows :
    {f : ℕ → ℕ} {s : Vga} (n : ℕ) (put : ℕ → ℕ → Vga → ℕ)
    → ((y x : ℕ) (u : Vga)
        → y < n
        → x < 80
        → Swept f s 0 (y * 80 + x) u
        → put y x u ≡ f (y * 80 + x))
    → Swept f s 0
        (n * 80)
        (for_range n 0 (λ y. for_range 80 0 (λ x u. put_cell u (y * 80 + x) (put y x u))) s)
Swept-rows {f} {s} n put writes =
    for_range_inv (λ y u. Swept f s 0 (y * 80) u) _ n 0 n s (omega arith)
      (λ y u low high v.
        let row = Swept-row (y * 80) (put y) (omega arith) (λ x t h w. writes y x t high h w) v in
        let next : y * 80 + 80 ≡ (y + 1) * 80 = omega arith in rw (← next) row)
      Swept-start

clear_last-Swept : (s : Vga) → Swept (λ j. cell 32 s.vga_color) s 1920 2000 (clear_last s)
unfolding clear_last
clear_last-Swept s =
    Swept-row 1920 (λ x u. cell 32 u.vga_color) (omega arith)
      (λ x u h w. ap (λ (v : Vga). cell 32 v.vga_color) w.frame) Swept-start

move_up-Swept : (s : Vga) → Swept (λ j. s.vga_buffer (j + 80)) s 0 1920 (move_up s)
unfolding move_up
move_up-Swept s =
    Swept-rows 24 (λ y x u. u.vga_buffer ((y + 1) * 80 + x))
      (λ y x u hy hx w.
        let below : (y + 1) * 80 + x ≡ y * 80 + x + 80 = omega arith in
        let later : (leb 0 (y * 80 + x + 80) && ltb (y * 80 + x + 80) (y * 80 + x)) ≡ false =
          ground arith in
        ap u.vga_buffer below ∙ w.done (y * 80 + x + 80) ∙ rw later refl)

-- What scrolling makes of the memory: every line of the screen moves up by one and the last one is
-- blank in the current colour; behind the screen nothing changes.
abbrev pub scrolled : Vga → ℕ → ℕ
scrolled s j =
    if ltb j 1920
    then s.vga_buffer (j + 80)
    else if ltb j 2000
    then cell 32 s.vga_color
    else s.vga_buffer j

-- Where the cursor's column is in range, scrolling moves every line up by one and blanks the last one
-- in the current colour, and writes nowhere else; the cursor goes to the last line, and the screen is
-- valid.
pub vga_scroll_lem :
    (s : Vga)
    → s.vga_col < vga_width
    → ((j : ℕ) → (vga_scroll s).vga_buffer j ≡ scrolled s j)
      × ((vga_scroll s).vga_row ≡ 24)
      × IsValid (vga_scroll s)
unfolding vga_scroll
vga_scroll_lem s col =
    let up = move_up-Swept s in
    let last = clear_last-Swept (move_up s) in
    let color : (move_up s).vga_color ≡ s.vga_color = ap (λ (v : Vga). v.vga_color) up.frame in
    let column : (clear_last (move_up s)).vga_col ≡ s.vga_col =
      ap (λ (v : Vga). v.vga_col) last.frame ∙ ap (λ (v : Vga). v.vga_col) up.frame in
    (
      λ j. elim (Bool-cases (ltb j 1920)) [
        | inl e ↦
            let upper : (leb 1920 j && ltb j 2000) ≡ false = ground arith in
            let kept : (leb 0 j && ltb j 1920) ≡ true = ground arith in
            rw e (last.done j ∙ rw upper (up.done j ∙ rw kept refl))
        | inr e ↦ elim (Bool-cases (ltb j 2000)) [
          | inl e2 ↦
              let lower : (leb 1920 j && ltb j 2000) ≡ true = ground arith in
              rw (e, e2) (last.done j ∙ rw lower (ap (cell 32) color))
          | inr e2 ↦
              let out : (leb 1920 j && ltb j 2000) ≡ false = ground arith in
              let out2 : (leb 0 j && ltb j 1920) ≡ false = ground arith in
              rw (e, e2) (last.done j ∙ rw out (up.done j ∙ rw out2 refl))
        ]
      ],
      refl,
      record { row = omega arith; col = omega (arith, column, col) },
    )

-- Before the wrap, the cursor may stand behind the last column or on the line behind the last, but
-- not both.
record InReach (s : Vga) : Type 0 where
  col : s.vga_col ≤ 80
  row : s.vga_row + s.vga_col / 80 ≤ 25

advance-InReach : {s : Vga} (c : ℕ) → IsValid s → InReach (advance s c)
unfolding advance
advance-InReach {s} c v = record { col = ground (arith, v.col); row = ground (arith, v.row, v.col) }

wrap_line-InReach :
    {s : Vga} → InReach s → ((wrap_line s).vga_col < 80) × ((wrap_line s).vga_row ≤ 25)
unfolding wrap_line
wrap_line-InReach {s} r = (ground (arith, r.col), ground (arith, r.row, r.col))

-- The first step writes on the screen, if at all.
advance-behind :
    {s : Vga} (c j : ℕ)
    → IsValid s
    → 2000 ≤ j
    → (wrap_line (advance s c)).vga_buffer j ≡ s.vga_buffer j
unfolding wrap_line advance
advance-behind {s} c j v behind =
    let other : (j == s.vga_row * vga_width + s.vga_col) ≡ false = ground (arith, v.row, v.col) in
    ground (arith, other)

-- `vga_putchar` of any character keeps the cursor of a valid screen on the screen, and writes nowhere
-- behind the 2000 cells of the screen.
pub vga_putchar-IsValid :
    {s : Vga} (c : ℕ)
    → IsValid s
    → IsValid (vga_putchar s c)
      × ((j : ℕ) → 2000 ≤ j → (vga_putchar s c).vga_buffer j ≡ s.vga_buffer j)
unfolding vga_putchar
vga_putchar-IsValid {s} c v =
    let w = wrap_line-InReach (advance-InReach c v) in
    elim (Bool-cases s.redirect) [
      | inl e ↦ simp e (record { row = v.row; col = v.col }, (λ j behind. refl))
      | inr e ↦ elim (Bool-cases (leb vga_height (wrap_line (advance s c)).vga_row)) [
        | inl over ↦
            let scroll = vga_scroll_lem (wrap_line (advance s c)) w.0 in
            simp (e, over)
              (
                scroll.2,
                (λ j behind.
                    let upper : ltb j 1920 ≡ false = ground arith in
                    let lower : ltb j 2000 ≡ false = ground arith in
                    scroll.0 j ∙ rw (upper, lower) (advance-behind c j v behind)),
              )
        | inr fits ↦
            let small = leb→lt _ _ fits in
            simp (e, fits)
              (record { row = small; col = w.0 }, (λ j behind. advance-behind c j v behind))
      ]
    ]
