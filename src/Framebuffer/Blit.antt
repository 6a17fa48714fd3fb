-- ===== src/Framebuffer/Blit.antt =====
-- Copying a picture with a key colour.
use paradox_os.Base.{
  Bool-cases, ap₂, arith, if◌then◌else◌, inl, inr, leb, ltb, not, refl, sym, true, ℕ, ◌&&◌, ◌*◌,
  ◌+◌, ◌-◌, ◌<◌, ◌==◌, ◌||◌, ◌∙◌, ◌≡◌, ◌≤◌,
}
use paradox_os.Base.Int.{ℤ, pos, pos_part, ◌-ℤ◌}
use paradox_os.Framebuffer.{
  Framebuffer, write_pixel, pixel_index, clip_side, source_pixel, source_skip, blit_rows,
  fb_blit_keyed,
}
use paradox_os.Framebuffer.Clip.{clip_side_lem, source_skip-clip_side}
use paradox_os.Framebuffer.Shown.{
  Shows, Shows-start, Shows-write, paint_rows, in_clipped, out_clipped, covers, covers-clipped,
}

-- The pixel of the source that is copied to a place.
abbrev pub source_at : (ℕ → ℕ → ℕ) → ℕ → ℕ → ℕ → ℕ → ℕ → ℕ → ℕ
source_at src sx sy x y px py = src (sx + (px - x)) (sy + (py - y))

-- One pixel of the copy.
blit_one :
    (s : Framebuffer) (src : ℕ → ℕ → ℕ) (sx sy x y key px py : ℕ)
    → px < s.width
    → (col row v : ℕ) (t : Framebuffer) → x + col < s.width
    → Shows s px py v t
    → Shows s px py
        (if (y + row == py) && (x + col == px)
          then (if source_at src sx sy x y px py == key then v else source_at src sx sy x y px py)
          else v)
        (if not (src (sx + col) (sy + row) == key)
          then write_pixel t (pixel_index t (x + col) (y + row)) (src (sx + col) (sy + row))
          else t)
blit_one s src sx sy x y key px py inside col row v t hc now =
    elim (Bool-cases ((y + row == py) && (x + col == px))) [
      | inl hit ↦
          let across : sx + (px - x) ≡ sx + col = ground arith in
          let down : sy + (py - y) ≡ sy + row = ground arith in
          let same : source_at src sx sy x y px py ≡ src (sx + col) (sy + row) =
            ap₂ src across down in
          let w =
            Shows-write s px py inside t (x + col) (y + row) v (src (sx + col) (sy + row)) hc now in
          elim (Bool-cases (src (sx + col) (sy + row) == key)) [
            | inl clear ↦ rw (hit, same, clear) now
            | inr solid ↦
                rw (hit, same, solid) (record { frame = w.frame; pixel = w.pixel ∙ rw hit refl })
          ]
      | inr miss ↦
          let w =
            Shows-write s px py inside t (x + col) (y + row) v (src (sx + col) (sy + row)) hc now in
          elim (Bool-cases (src (sx + col) (sy + row) == key)) [
            | inl clear ↦ rw (miss, clear) now
            | inr solid ↦
                rw (miss, solid) (record { frame = w.frame; pixel = w.pixel ∙ rw miss refl })
          ]
    ]

blit_rows-Shows :
    (s : Framebuffer) (src : ℕ → ℕ) (pitch sx sy x y w h key px py : ℕ)
    → px < s.width
    → x + w ≤ s.width
    → Shows s px py
        (if (leb y py && ltb py (y + h)) && (leb x px && ltb px (x + w))
          then (if source_at (source_pixel src pitch) sx sy x y px py == key
              then s.back (py * s.width + px)
              else source_at (source_pixel src pitch) sx sy x y px py)
          else s.back (py * s.width + px))
        (blit_rows s src pitch sx sy x y w h key)
unfolding blit_rows
blit_rows-Shows s src pitch sx sy x y w h key px py inside fits =
    paint_rows s px py inside
      (λ a b v.
        if source_at (source_pixel src pitch) sx sy x y a b == key
        then v
        else source_at (source_pixel src pitch) sx sy x y a b)
      (λ row col t.
        let p = source_pixel src pitch (sx + col) (sy + row) in
        if not (p == key) then write_pixel t (pixel_index t (x + col) (y + row)) p else t)
      x y w fits
      (λ col row v t hc now.
        blit_one s (source_pixel src pitch) sx sy x y key px py inside col row v t (omega arith)
          now)
      h (s.back (py * s.width + px)) s (Shows-start s px py)

copied :
    (s : Framebuffer) (src : ℕ → ℕ → ℕ) (x y w h : ℤ) (key px py : ℕ)
    → px < s.width
    → (old : ℕ)
    → (if (leb (clip_side s.height y h).0 py
            && ltb py ((clip_side s.height y h).0 + (clip_side s.height y h).1))
          && (leb (clip_side s.width x w).0 px
              && ltb px ((clip_side s.width x w).0 + (clip_side s.width x w).1))
        then (if source_at src
                (source_skip x)
                (source_skip y)
                (clip_side s.width x w).0
                (clip_side s.height y h).0
                px
                py
              == key
            then old
            else source_at src
                (source_skip x)
                (source_skip y)
                (clip_side s.width x w).0
                (clip_side s.height y h).0
                px
                py)
        else old)
      ≡ (if covers s x y w h px py
          then (if src (pos_part (pos px -ℤ x)) (pos_part (pos py -ℤ y)) == key
              then old
              else src (pos_part (pos px -ℤ x)) (pos_part (pos py -ℤ y)))
          else old)
copied s src x y w h key px py hx old =
    let same = in_clipped s x y w h px py ∙ covers-clipped s x y w h px py hx in
    elim (Bool-cases (
      (leb (clip_side s.height y h).0 py
        && ltb py ((clip_side s.height y h).0 + (clip_side s.height y h).1))
      && (leb (clip_side s.width x w).0 px
          && ltb px ((clip_side s.width x w).0 + (clip_side s.width x w).1)))) [
            | inr out ↦ rw (out, sym same ∙ out) refl
            | inl shown ↦
                let across = source_skip-clip_side s.width x w px (ground (arith, shown)) in
                let down = source_skip-clip_side s.height y h py (ground (arith, shown)) in
                rw (shown, sym same ∙ shown, across, down) refl
          ]

fb_blit_keyed_ready :
    (s : Framebuffer) (src : ℕ → ℕ) (pitch : ℕ) (x y w h : ℤ) (key : ℕ)
    → s.ready ≡ true
    → fb_blit_keyed s src pitch x y w h key ≡ (
        if ((clip_side s.width x w).1 == 0) || ((clip_side s.height y h).1 == 0)
        then s
        else blit_rows s src pitch
            (source_skip x)
            (source_skip y)
            (clip_side s.width x w).0
            (clip_side s.height y h).0
            (clip_side s.width x w).1
            (clip_side s.height y h).1
            key)
unfolding fb_blit_keyed
fb_blit_keyed_ready s src pitch x y w h key ready = simp ready refl

-- The pixel of the source that belongs to a place of the screen.
abbrev pub pixel_for : (ℕ → ℕ) → ℕ → ℤ → ℤ → ℕ → ℕ → ℕ
pixel_for src pitch x y px py = src (pos_part (pos py -ℤ y) * pitch + pos_part (pos px -ℤ x))

-- Copying a picture, once the framebuffer is ready: a pixel of the screen that the picture covers gets
-- the pixel of the source that belongs there, in the source's rows of `pitch` pixels, however far the
-- picture hangs over the edges, unless that one has the key colour. No other pixel changes, nothing in
-- the memory behind the screen, which is where the rows from the height on would be, and nothing else.
pub fb_blit_keyed_lem :
    (s : Framebuffer) (src : ℕ → ℕ) (pitch : ℕ) (x y w h : ℤ) (key px py : ℕ)
    → s.ready ≡ true
    → px < s.width
    → ((fb_blit_keyed s src pitch x y w h key).back (py * s.width + px) ≡ (
        if covers s x y w h px py
        then (if pixel_for src pitch x y px py == key
            then s.back (py * s.width + px)
            else pixel_for src pitch x y px py)
        else s.back (py * s.width + px)))
      × (fb_blit_keyed s src pitch x y w h key
          ≡ record s { back = (fb_blit_keyed s src pitch x y w h key).back })
fb_blit_keyed_lem s src pitch x y w h key px py ready hx =
    let on_screen = covers-clipped s x y w h px py hx in
    rw (fb_blit_keyed_ready s src pitch x y w h key ready)
      (elim (Bool-cases (((clip_side s.width x w).1 == 0) || ((clip_side s.height y h).1 == 0))) [
        | inl empty ↦
            let out = sym on_screen ∙ out_clipped s x y w h px py empty in
            rw (empty, out) (refl, refl)
        | inr some_pixel ↦
            let drawn =
              blit_rows-Shows s src pitch (source_skip x) (source_skip y) (clip_side s.width x w).0
                (clip_side s.height y h).0 (clip_side s.width x w).1 (clip_side s.height y h).1 key
                px py hx (clip_side_lem s.width x w px).0 in
            rw some_pixel (
              drawn.pixel
                  ∙ copied s (source_pixel src pitch) x y w h key px py hx
                      (s.back (py * s.width + px)),
              drawn.frame,
            )
      ])
