-- ===== src/Framebuffer/Clip.antt =====
-- Clipping keeps exactly the pixels of a side that are on the screen.
use paradox_os.Base.{Bool, arith, leb, ltb, true, ℕ, ◌&&◌, ◌+◌, ◌-◌, ◌<◌, ◌≡◌, ◌≤◌}
use paradox_os.Base.Int.{ℤ, pos, negsuc, pos_part, ◌+ℤ◌, ◌-ℤ◌, ltb_ℤ, leb_ℤ}
use paradox_os.Framebuffer.{clip_side, source_skip}

-- The pixel `p` lies on the side that starts at `x` and has length `w`.
abbrev pub on_side : ℤ → ℤ → ℕ → Bool
on_side x w p = leb_ℤ x (pos p) && ltb_ℤ (pos p) (x +ℤ w)

-- The clipped side ends on the screen, and holds the pixels of the side that are on the screen.
pub clip_side_lem :
    (limit : ℕ) (x w : ℤ) (p : ℕ)
    → ((clip_side limit x w).0 + (clip_side limit x w).1 ≤ limit)
      × ((leb (clip_side limit x w).0 p
            && ltb p ((clip_side limit x w).0 + (clip_side limit x w).1))
          ≡ (ltb p limit && on_side x w p))
unfolding clip_side ◌+ℤ◌ ◌-ℤ◌
clip_side_lem limit x w p = (ground arith, ground arith)

clip_side-start :
    (limit : ℕ) (x w : ℤ) → 0 < (clip_side limit x w).1 → (clip_side limit x w).0 ≡ pos_part x
unfolding clip_side ◌+ℤ◌ ◌-ℤ◌
clip_side-start limit (pos n) w some_pixel = ground (arith, some_pixel)
clip_side-start limit (negsuc n) w some_pixel = ground (arith, some_pixel)

skip_lem :
    (x : ℤ) (p : ℕ) → pos_part x ≤ p → source_skip x + (p - pos_part x) ≡ pos_part (pos p -ℤ x)
unfolding ◌-ℤ◌
skip_lem (pos n) p h = ground arith
skip_lem (negsuc n) p h = ground arith

-- Where a pixel of the clipped side comes from: the clipping moves the source as far as it cuts.
pub source_skip-clip_side :
    (limit : ℕ) (x w : ℤ) (p : ℕ)
    → (leb (clip_side limit x w).0 p && ltb p ((clip_side limit x w).0 + (clip_side limit x w).1))
      ≡ true
    → source_skip x + (p - (clip_side limit x w).0) ≡ pos_part (pos p -ℤ x)
source_skip-clip_side limit x w p inside =
    let start = clip_side-start limit x w (ground (arith, inside)) in
    let after : (clip_side limit x w).0 ≤ p = ground (arith, inside) in
    rw start (skip_lem x p (omega (arith, start, after)))
