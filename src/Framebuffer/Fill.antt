-- ===== src/Framebuffer/Fill.antt =====
-- Filling a rectangle.
use paradox_os.Base.{
  Bool-cases, ap, arith, if◌then◌else◌, inl, inr, leb, ltb, refl, sym, true, ℕ, ◌&&◌, ◌*◌, ◌+◌, ◌<◌,
  ◌==◌, ◌||◌, ◌∙◌, ◌≡◌, ◌≤◌,
}
use paradox_os.Base.Int.{ℤ}
use paradox_os.Framebuffer.{
  Framebuffer, write_pixel, pixel_index, clip_side, fill_rows, fb_fill_rect,
}
use paradox_os.Framebuffer.Clip.{clip_side_lem}
use paradox_os.Framebuffer.Shown.{
  Shows, Shows-start, Shows-write, paint_rows, in_clipped, out_clipped, covers, covers-clipped,
}

fill_rows-Shows :
    (s : Framebuffer) (x y w h c px py : ℕ)
    → px < s.width
    → x + w ≤ s.width
    → Shows s px py
        (if (leb y py && ltb py (y + h)) && (leb x px && ltb px (x + w))
          then c
          else s.back (py * s.width + px))
        (fill_rows s x y w h c)
unfolding fill_rows
fill_rows-Shows s x y w h c px py inside fits =
    paint_rows s px py inside (λ a b v. c)
      (λ row col t. write_pixel t (pixel_index t (x + col) (y + row)) c) x y w fits
      (λ col row v t hc now. Shows-write s px py inside t (x + col) (y + row) v c (omega arith) now)
      h (s.back (py * s.width + px)) s (Shows-start s px py)

fb_fill_rect_ready :
    (s : Framebuffer) (x y w h : ℤ) (c : ℕ)
    → s.ready ≡ true
    → fb_fill_rect s x y w h c ≡ (
        if ((clip_side s.width x w).1 == 0) || ((clip_side s.height y h).1 == 0)
        then s
        else fill_rows s
            (clip_side s.width x w).0
            (clip_side s.height y h).0
            (clip_side s.width x w).1
            (clip_side s.height y h).1
            c)
unfolding fb_fill_rect
fb_fill_rect_ready s x y w h c ready = simp ready refl

-- Once the framebuffer is ready, filling a rectangle sets exactly the pixels of the rectangle that are on
-- the screen, wherever the rectangle lies, and changes no other pixel, nothing in the memory behind the
-- screen, which is where the rows from the height on would be, and nothing else.
pub fb_fill_rect_lem :
    (s : Framebuffer) (x y w h : ℤ) (c px py : ℕ)
    → s.ready ≡ true
    → px < s.width
    → ((fb_fill_rect s x y w h c).back (py * s.width + px)
        ≡ (if covers s x y w h px py then c else s.back (py * s.width + px)))
      × (fb_fill_rect s x y w h c ≡ record s { back = (fb_fill_rect s x y w h c).back })
fb_fill_rect_lem s x y w h c px py ready hx =
    let on_screen = covers-clipped s x y w h px py hx in
    rw (fb_fill_rect_ready s x y w h c ready)
      (elim (Bool-cases (((clip_side s.width x w).1 == 0) || ((clip_side s.height y h).1 == 0))) [
        | inl empty ↦
            let out = sym on_screen ∙ out_clipped s x y w h px py empty in
            rw (empty, out) (refl, refl)
        | inr some_pixel ↦
            let drawn =
              fill_rows-Shows s (clip_side s.width x w).0 (clip_side s.height y h).0
                (clip_side s.width x w).1 (clip_side s.height y h).1 c px py hx
                (clip_side_lem s.width x w px).0 in
            rw some_pixel (
              drawn.pixel
                  ∙ ap (λ b. if b then c else s.back (py * s.width + px))
                      (in_clipped s x y w h px py ∙ on_screen),
              drawn.frame,
            )
      ])
