-- ===== src/Framebuffer/Tests.antt =====
-- A screen of four by three pixels whose hardware lines are longer by one.
use paradox_os.Base.{arith, for_range, if◌then◌else◌, refl, true, ℕ, ◌*◌, ◌+◌, ◌==◌, ◌≡◌}
use paradox_os.Base.Int.{pos, negsuc}
use paradox_os.Framebuffer.{Framebuffer, fb_fill_rect, fb_blit_keyed, clip_side, fill_rows}
use paradox_os.Framebuffer.Shown.{covers}
use paradox_os.Framebuffer.Fill.{fb_fill_rect_lem}
use paradox_os.Framebuffer.Blit.{pixel_for, fb_blit_keyed_lem}

abbrev screen : Framebuffer
screen = record { back = λ i. i; hw = λ i. 0; width = 4; height = 3; pitch_px = 5; ready = true }

-- The corner of a rectangle that begins above and left of the screen
fills_the_corner : (fb_fill_rect screen (negsuc 0) (negsuc 1) (pos 3) (pos 3) 9).back 1 ≡ 9
unfolding fb_fill_rect clip_side fill_rows for_range
fills_the_corner = refl

fb_fill_rect_lem_example :
    ((fb_fill_rect screen (negsuc 0) (pos 1) (pos 3) (pos 9) 9).back (2 * 4 + 1) ≡ (
      if covers screen (negsuc 0) (pos 1) (pos 3) (pos 9) 1 2 then 9 else screen.back (2 * 4 + 1)))
    × (fb_fill_rect screen (negsuc 0) (pos 1) (pos 3) (pos 9) 9
        ≡ record screen { back = (fb_fill_rect screen (negsuc 0) (pos 1) (pos 3) (pos 9) 9).back })
fb_fill_rect_lem_example =
    fb_fill_rect_lem screen (negsuc 0) (pos 1) (pos 3) (pos 9) 9 1 2 refl (omega arith)

-- A source whose rows are seven pixels apart
abbrev picture : ℕ → ℕ
picture i = i + 1

fb_blit_keyed_lem_example :
    ((fb_blit_keyed screen picture 7 (negsuc 0) (pos 1) (pos 3) (pos 9) 7).back (2 * 4 + 1) ≡ (
      if covers screen (negsuc 0) (pos 1) (pos 3) (pos 9) 1 2
      then (if pixel_for picture 7 (negsuc 0) (pos 1) 1 2 == 7
          then screen.back (2 * 4 + 1)
          else pixel_for picture 7 (negsuc 0) (pos 1) 1 2)
      else screen.back (2 * 4 + 1)))
    × (fb_blit_keyed screen picture 7 (negsuc 0) (pos 1) (pos 3) (pos 9) 7 ≡ record screen {
      back = (fb_blit_keyed screen picture 7 (negsuc 0) (pos 1) (pos 3) (pos 9) 7).back;
    })
fb_blit_keyed_lem_example =
    fb_blit_keyed_lem screen picture 7 (negsuc 0) (pos 1) (pos 3) (pos 9) 7 1 2 refl (omega arith)
