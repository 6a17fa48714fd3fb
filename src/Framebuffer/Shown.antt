-- ===== src/Framebuffer/Shown.antt =====
-- What the drawing loops do to one pixel, on the screen or in the memory behind it.
use paradox_os.Base.{
  ==_refl, Bool, Bool-cases, ap, ap₂, arith, false, for_range, for_range_inv, if◌then◌else◌, inl,
  inr, leb, ltb, ltb→lt, lt→ltb, refl, sym, true, ℕ, ◌&&◌, ◌*◌, ◌+◌, ◌<◌, ◌==◌, ◌||◌, ◌∙◌, ◌≡◌, ◌≤◌,
}
use paradox_os.Base.Int.{ℤ}
use paradox_os.Framebuffer.{Framebuffer, write_pixel, pixel_index, clip_side}
use paradox_os.Framebuffer.Clip.{on_side, clip_side_lem}

lower_row : (w r r' a b : ℕ) → r < r' → a < w → r * w + a < r' * w + b
lower_row w r r' a b h ha = grind arith

-- Two places on the screen have the same index only if they are the same place.
pub index_eq :
    (w r r' a b : ℕ) → a < w → b < w → (r * w + a == r' * w + b) ≡ ((r == r') && (a == b))
index_eq w r r' a b ha hb = elim (Bool-cases (r == r')) [
  | inl same ↦ let e : r ≡ r' = ground arith in rw (e, ==_refl r') (ground arith)
  | inr other ↦ elim (Bool-cases (ltb r r')) [
    | inl l ↦ let below = lower_row w r r' a b (ltb→lt _ _ l) ha in rw other (ground (arith, below))
    | inr l ↦ let above = lower_row w r' r b a (ground arith) hb in rw other (ground (arith, above))
  ]
]

-- The state is that of `s` but for the back buffer, which has `v` at the pixel.
pub record Shows (s : Framebuffer) (px py v : ℕ) (t : Framebuffer) : Type 0 where
  pub frame : t ≡ record s { back = t.back }
  pub pixel : t.back (py * s.width + px) ≡ v

-- A loop over a rectangle on the screen whose body paints each pixel by `f`, seen at one pixel.
module _ (s : Framebuffer) (px py : ℕ) (inside : px < s.width) (f : ℕ → ℕ → ℕ → ℕ)
    (body : ℕ → ℕ → Framebuffer → Framebuffer) (x y w : ℕ) (fits : x + w ≤ s.width) where
  -- What one call of the body does.
  abbrev pub Paints : Type 0
  Paints =
      (col row v : ℕ) (t : Framebuffer)
      → col < w
      → Shows s px py v t
      → Shows s px py (if (y + row == py) && (x + col == px) then f px py v else v) (body row col t)

  module _ (paints : Paints) where
    paint_row :
        (row v : ℕ) (t : Framebuffer)
        → Shows s px py v t
        → Shows s px py
            (if (y + row == py) && (leb x px && ltb px (x + w)) then f px py v else v)
            (for_range w 0 (λ col. body row col) t)
    paint_row row v t h =
        for_range_inv
          (λ k u.
            Shows s px py (if (y + row == py) && (leb x px && ltb px (x + k)) then f px py v else v)
              u)
          (λ col. body row col) w 0 w t (omega arith)
          (λ k u low high now.
            let next = paints k row _ u high now in
            record { frame = next.frame; pixel = next.pixel ∙ ground arith })
          (record { frame = h.frame; pixel = h.pixel ∙ ground arith })

    pub paint_rows :
        (h v : ℕ) (t : Framebuffer)
        → Shows s px py v t
        → Shows s px py
            (if (leb y py && ltb py (y + h)) && (leb x px && ltb px (x + w)) then f px py v else v)
            (for_range h 0 (λ row. for_range w 0 (λ col. body row col)) t)
    paint_rows h v t start =
        for_range_inv
          (λ k u.
            Shows s px py
              (if (leb y py && ltb py (y + k)) && (leb x px && ltb px (x + w))
                then f px py v
                else v)
              u)
          (λ row. for_range w 0 (λ col. body row col)) h 0 h t (omega arith)
          (λ k u low high now.
            let next = paint_row k _ u now in
            record { frame = next.frame; pixel = next.pixel ∙ ground arith })
          (record { frame = start.frame; pixel = start.pixel ∙ ground arith })

pub Shows-start : (s : Framebuffer) (px py : ℕ) → Shows s px py (s.back (py * s.width + px)) s
Shows-start s px py = record { frame = refl; pixel = refl }

-- A write of one pixel on the screen, seen at a pixel.
pub Shows-write :
    (s : Framebuffer) (px py : ℕ)
    → px < s.width
    → (t : Framebuffer) (a r v c : ℕ) → a < s.width
    → Shows s px py v t
    → Shows s px py (if (r == py) && (a == px) then c else v) (write_pixel t (pixel_index t a r) c)
Shows-write s px py inside t a r v c ha h =
    let width : t.width ≡ s.width = ap (λ (u : Framebuffer). u.width) h.frame in
    record {
      frame =
          ap {A = Framebuffer} {B = Framebuffer}
            (λ u. record u { back = λ q. if q == r * t.width + a then c else t.back q }) h.frame;
      pixel = rw (width, index_eq s.width py r px a inside ha) (rw h.pixel (ground arith));
    }

-- The clipped sides, seen at a pixel of the screen.
module _ (s : Framebuffer) (x y w h : ℤ) (px py : ℕ) where
  pub in_clipped :
      ((leb (clip_side s.height y h).0 py
          && ltb py ((clip_side s.height y h).0 + (clip_side s.height y h).1))
        && (leb (clip_side s.width x w).0 px
            && ltb px ((clip_side s.width x w).0 + (clip_side s.width x w).1)))
      ≡ ((ltb py s.height && on_side y h py) && (ltb px s.width && on_side x w px))
  in_clipped =
      ap₂ (λ p q. p && q) (clip_side_lem s.height y h py).1 (clip_side_lem s.width x w px).1

  pub out_clipped :
      (((clip_side s.width x w).1 == 0) || ((clip_side s.height y h).1 == 0)) ≡ true
      → ((ltb py s.height && on_side y h py) && (ltb px s.width && on_side x w px)) ≡ false
  out_clipped empty = sym in_clipped ∙ ground (arith, empty)

-- What a pixel in the row `py` and the column `px` is covered by: the rows from the height on are the
-- memory behind the screen.
abbrev pub covers : Framebuffer → ℤ → ℤ → ℤ → ℤ → ℕ → ℕ → Bool
covers s x y w h px py = ltb py s.height && (on_side y h py && on_side x w px)

pub covers-clipped :
    (s : Framebuffer) (x y w h : ℤ) (px py : ℕ)
    → px < s.width
    → ((ltb py s.height && on_side y h py) && (ltb px s.width && on_side x w px))
      ≡ covers s x y w h px py
covers-clipped s x y w h px py hx =
    let wide : ltb px s.width ≡ true = lt→ltb _ _ hx in
    rw wide (elim (Bool-cases (ltb py s.height)) [ inl e ↦ rw e refl | inr e ↦ rw e refl ])
