-- ===== src/Framebuffer.antt =====
-- The framebuffer, src/kernel/framebuffer.cpp with src/include/framebuffer.h. `back` and `hw` are the
-- pixels of the back buffer and of the hardware at their indices, and what the memory holds behind
-- them. Widths and heights are those of a
-- screen, below 2 ^ 31, so that the casts between signed and unsigned change nothing.
pub mod Clip
pub mod Shown
pub mod Fill
pub mod Blit
pub mod Present
mod Tests
use paradox_os.Base.{
  Bool, false, for_range, if◌then◌else◌, leb, ltb, not, suc, true, ℕ, ◌%◌, ◌*◌, ◌+◌, ◌-◌, ◌/◌, ◌==◌,
  ◌^◌, ◌||◌,
}
use paradox_os.Base.Int.{ℤ, pos, negsuc, pos_part, ◌+ℤ◌, ◌-ℤ◌, ltb_ℤ, leb_ℤ}
use paradox_os.Heap.{Heap, kmalloc}

pub record Framebuffer : Type 0 where
  pub back : ℕ → ℕ
  pub hw : ℕ → ℕ
  pub width : ℕ
  pub height : ℕ
  pub pitch_px : ℕ
  pub ready : Bool

-- The format has to be RGB with 32 bits, and there has to be memory for the back buffer. The back
-- buffer then holds what the memory held.
pub fb_init : Framebuffer → Heap → ℕ → ℕ → ℕ → ℕ → ℕ → Bool × Framebuffer × Heap
fb_init s h pitch width height bpp fb_type =
    if not (fb_type == 1) || not (bpp == 32)
    then (false, s, h)
    else let t : Framebuffer = record s { width = width; height = height; pitch_px = pitch / 4 } in
      let (back, h') = kmalloc h (width * height * 4 % 2 ^ 64) in
      if back == 0 then (false, t, h') else (true, record t { ready = true }, h')

abbrev pub write_pixel : Framebuffer → ℕ → ℕ → Framebuffer
write_pixel s i c = record s { back = λ q. if q == i then c else s.back q }

unfoldable pub fb_clear : Framebuffer → ℕ → Framebuffer
fb_clear s c =
    if not s.ready
    then s
    else for_range (s.width * s.height % 2 ^ 32) 0 (λ i t. write_pixel t i c) s

-- `back_row(y)[x]`
abbrev pub pixel_index : Framebuffer → ℕ → ℕ → ℕ
pixel_index s x y = y * s.width + x

unfoldable pub fb_put_pixel : Framebuffer → ℤ → ℤ → ℕ → Framebuffer
fb_put_pixel s x y c =
    if not s.ready
    then s
    else if ltb_ℤ x (pos 0)
        || (ltb_ℤ y (pos 0) || (leb s.width (pos_part x) || leb s.height (pos_part y)))
    then s
    else write_pixel s (pixel_index s (pos_part x) (pos_part y)) c

-- What one side of a rectangle is clipped to: where it starts, and how far it goes. A length of 0
-- stands for the early returns.
unfoldable pub clip_side : ℕ → ℤ → ℤ → ℕ × ℕ
unfolding ◌+ℤ◌ ◌-ℤ◌
clip_side limit x w =
    let w1 = if ltb_ℤ x (pos 0) then w +ℤ x else w in
    let x1 = if ltb_ℤ x (pos 0) then pos 0 else x in
    if leb_ℤ w1 (pos 0)
    then (0, 0)
    else if leb limit (pos_part x1)
    then (0, 0)
    else (pos_part x1, if ltb limit (pos_part (x1 +ℤ w1)) then limit - pos_part x1 else pos_part w1)

-- The two loops of a filled rectangle that lies on the screen.
unfoldable pub fill_rows : Framebuffer → ℕ → ℕ → ℕ → ℕ → ℕ → Framebuffer
fill_rows s x y w h c =
    for_range h 0
      (λ row. for_range w 0 (λ col t. write_pixel t (pixel_index t (x + col) (y + row)) c)) s

unfoldable pub fb_fill_rect : Framebuffer → ℤ → ℤ → ℤ → ℤ → ℕ → Framebuffer
fb_fill_rect s x y w h c =
    if not s.ready
    then s
    else let (x1, w1) = clip_side s.width x w in
      let (y1, h1) = clip_side s.height y h in
      if (w1 == 0) || (h1 == 0) then s else fill_rows s x1 y1 w1 h1 c

pub fb_rect_outline : Framebuffer → ℤ → ℤ → ℤ → ℤ → ℕ → Framebuffer
unfolding ◌+ℤ◌ ◌-ℤ◌
fb_rect_outline s x y w h c =
    if leb_ℤ w (pos 0) || leb_ℤ h (pos 0)
    then s
    else let s1 = fb_fill_rect s x y w (pos 1) c in
      let s2 = fb_fill_rect s1 x (y +ℤ h -ℤ pos 1) w (pos 1) c in
      let s3 = fb_fill_rect s2 x y (pos 1) h c in fb_fill_rect s3 (x +ℤ w -ℤ pos 1) y (pos 1) h c

-- `src[(sy + row) * src_pitch_px + sx + col]`, where a row of the source has a pitch of 0 or more.
abbrev pub source_pixel : (ℕ → ℕ) → ℕ → ℕ → ℕ → ℕ
source_pixel src src_pitch_px x y = src (y * src_pitch_px + x)

unfoldable pub blit_rows : Framebuffer → (ℕ → ℕ) → ℕ → ℕ → ℕ → ℕ → ℕ → ℕ → ℕ → ℕ → Framebuffer
blit_rows s src src_pitch_px sx sy x y w h key =
    for_range h 0
      (λ row. for_range w 0 (λ col t.
        let px = source_pixel src src_pitch_px (sx + col) (sy + row) in
        if not (px == key) then write_pixel t (pixel_index t (x + col) (y + row)) px else t))
      s

-- How far the clipping on the left moves the source.
abbrev pub source_skip : ℤ → ℕ
source_skip (pos n) = 0
source_skip (negsuc n) = suc n

unfoldable pub fb_blit_keyed : Framebuffer → (ℕ → ℕ) → ℕ → ℤ → ℤ → ℤ → ℤ → ℕ → Framebuffer
fb_blit_keyed s src src_pitch_px dst_x dst_y w h key =
    if not s.ready
    then s
    else let (x1, w1) = clip_side s.width dst_x w in
      let (y1, h1) = clip_side s.height dst_y h in
      if (w1 == 0) || (h1 == 0)
      then s
      else blit_rows s src src_pitch_px (source_skip dst_x) (source_skip dst_y) x1 y1 w1 h1 key

unfoldable pub fb_present : Framebuffer → Framebuffer
fb_present s =
    if not s.ready
    then s
    else for_range s.height 0
        (λ y. for_range s.width 0 (λ x t. record t {
          hw = λ q. if q == y * t.pitch_px + x then t.back (y * t.width + x) else t.hw q;
        }))
        s
