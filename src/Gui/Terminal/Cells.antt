-- ===== src/Gui/Terminal/Cells.antt =====
-- What the loops over the cells do.
use paradox_os.Base.{
  Bool-cases, ap, ap₂, arith, false, for_range, for_range_inv, if◌then◌else◌, inl, inr, leb, ltb,
  refl, sym, true, ℕ, ◌&&◌, ◌+◌, ◌<◌, ◌==◌, ◌||◌, ◌∙◌, ◌≡◌, ◌≤◌,
}
use paradox_os.Gui.Terminal.{Term, write_cell, clear_row, move_rows, term_clear, term_scroll_one}

-- The rows from `from` up to `k`, and the first `l` cells of row `k`, have been written with `f`.
record Swept (from : ℕ) (f : ℕ → ℕ → ℕ) (s : Term) (k l : ℕ) (t : Term) : Type 0 where
  done :
      (i j : ℕ)
      → t.cells i j ≡ (
          if leb from i && ((ltb i k && ltb j 96) || ((i == k) && ltb j l))
          then f i j
          else s.cells i j)
  frame : t ≡ record s { cells = t.cells }

module _ {from : ℕ} {f : ℕ → ℕ → ℕ} {s : Term} where
  Swept-start : Swept from f s from 0 s
  Swept-start = record { done = λ i j. ground arith; frame = refl }

  Swept-write :
      {k l v : ℕ} {t : Term}
      → from ≤ k
      → l < 96
      → v ≡ f k l
      → Swept from f s k l t
      → Swept from f s k (l + 1) (write_cell t k l v)
  Swept-write {k} {l} {v} {t} above inside e w = record {
    done = λ i j. elim (Bool-cases ((i == k) && (j == l))) [
      | inl hit ↦
          let row : i ≡ k = ground arith in
          let col : j ≡ l = ground arith in
          let now : (leb from i && ((ltb i k && ltb j 96) || ((i == k) && ltb j (l + 1)))) ≡ true =
            ground arith in
          rw (hit, now) (e ∙ sym (ap₂ f row col))
      | inr miss ↦
          let same : (leb from i && ((ltb i k && ltb j 96) || ((i == k) && ltb j (l + 1))))
              ≡ (leb from i && ((ltb i k && ltb j 96) || ((i == k) && ltb j l))) =
            ground arith in
          rw (miss, same) (w.done i j)
    ];
    frame =
        ap {A = Term} {B = Term}
          (λ u. record u { cells = λ i j. if (i == k) && (j == l) then v else t.cells i j })
          w.frame;
  }

  Swept-row :
      {k : ℕ} {t : Term} (put : ℕ → Term → ℕ)
      → from ≤ k
      → ((l : ℕ) (u : Term) → l < 96 → Swept from f s k l u → put l u ≡ f k l)
      → Swept from f s k 0 t
      → Swept from f s (k + 1) 0 (for_range 96 0 (λ l u. write_cell u k l (put l u)) t)
  Swept-row {k} {t} put above writes start =
      let full =
        for_range_inv (λ l u. Swept from f s k l u) (λ l u. write_cell u k l (put l u)) 96 0 96 t
          refl (λ l u low high now. Swept-write above high (writes l u high now) now) start in
      record { done = λ i j. full.done i j ∙ ground arith; frame = full.frame }

Swept-rows :
    {f : ℕ → ℕ → ℕ} {s : Term} (n : ℕ) (put : ℕ → ℕ → Term → ℕ)
    → ((k l : ℕ) (u : Term) → k < n → l < 96 → Swept 0 f s k l u → put k l u ≡ f k l)
    → Swept 0 f s n 0 (for_range n 0 (λ k. for_range 96 0 (λ l u. write_cell u k l (put k l u))) s)
Swept-rows {f} {s} n put writes =
    for_range_inv (λ k u. Swept 0 f s k 0 u)
      (λ k. for_range 96 0 (λ l u. write_cell u k l (put k l u))) n 0 n s (omega arith)
      (λ k u low high now. Swept-row (put k) (omega arith) (λ l t h w. writes k l t high h w) now)
      Swept-start

-- Scrolling moves every row up by one and blanks the last one, and changes nothing else.
pub term_scroll_one_lem :
    (s : Term)
    → ((i j : ℕ)
        → i < 36
        → j < 96
        → (term_scroll_one s).cells i j ≡ (if ltb i 35 then s.cells (i + 1) j else 32))
      × (term_scroll_one s ≡ record s { cells = (term_scroll_one s).cells })
unfolding term_scroll_one clear_row move_rows
term_scroll_one_lem s =
    let up =
      Swept-rows {f = λ i j. s.cells (i + 1) j} {s = s} 35 (λ k l u. u.cells (k + 1) l)
        (λ k l u hk hl w. w.done (k + 1) l ∙ ground arith) in
    let last =
      Swept-row {from = 35} {f = λ i j. 32} {s = move_rows s} {k = 35} {t = move_rows s} (λ l u. 32)
        (omega arith) (λ l u h w. refl) Swept-start in
    (
      λ i j hi hj. last.done i j ∙ elim (Bool-cases (ltb i 35)) [
        | inl e ↦
            let old : (leb 35 i && ((ltb i 36 && ltb j 96) || ((i == 36) && ltb j 0))) ≡ false =
              ground arith in
            let moved : (leb 0 i && ((ltb i 35 && ltb j 96) || ((i == 35) && ltb j 0))) ≡ true =
              ground arith in
            rw (old, e) (up.done i j ∙ rw moved refl)
        | inr e ↦
            let new : (leb 35 i && ((ltb i 36 && ltb j 96) || ((i == 36) && ltb j 0))) ≡ true =
              ground arith in
            rw (new, e) refl
      ],
      last.frame
          ∙ ap {A = Term} {B = Term} (λ u. record u { cells = (term_scroll_one s).cells }) up.frame,
    )

-- Clearing blanks every cell and moves the cursor to the first one.
pub term_clear_lem :
    (s : Term)
    → ((i j : ℕ) → i < 36 → j < 96 → (term_clear s).cells i j ≡ 32)
      × ((term_clear s).cur_row ≡ 0)
      × ((term_clear s).cur_col ≡ 0)
unfolding term_clear
term_clear_lem s =
    let blank = Swept-rows {f = λ i j. 32} {s = s} 36 (λ k l u. 32) (λ k l u hk hl w. refl) in
    (
      λ i j hi hj.
          let inside : (leb 0 i && ((ltb i 36 && ltb j 96) || ((i == 36) && ltb j 0))) ≡ true =
            ground arith in
          blank.done i j ∙ rw inside refl,
      refl,
      refl,
    )
