-- ===== src/Framebuffer/Present.antt =====
-- Showing the back buffer on the hardware.
use paradox_os.Base.{
  ==_refl, Bool-cases, ap, arith, false, for_range, for_range_inv, if◌then◌else◌, inl, inr, ltb,
  refl, true, ℕ, ◌&&◌, ◌*◌, ◌+◌, ◌<◌, ◌==◌, ◌∙◌, ◌≡◌, ◌≤◌,
}
use paradox_os.Framebuffer.{Framebuffer, fb_present}
use paradox_os.Framebuffer.Shown.{index_eq}

-- The state is that of `s` but for the hardware, which has `v` at the pixel.
record Sent (s : Framebuffer) (px py v : ℕ) (t : Framebuffer) : Type 0 where
  frame : t ≡ record s { hw = t.hw }
  pixel : t.hw (py * s.pitch_px + px) ≡ v

module _ (s : Framebuffer) (px py : ℕ) (inside : px < s.width) (pitch : s.width ≤ s.pitch_px) where
  send_pixel :
      (x y v : ℕ) (t : Framebuffer)
      → x < s.width
      → Sent s px py v t
      → Sent s px py (if (y == py) && (x == px) then s.back (py * s.width + px) else v) (record t {
        hw = λ q. if q == y * t.pitch_px + x then t.back (y * t.width + x) else t.hw q;
      })
  send_pixel x y v t hx now =
      let width : t.width ≡ s.width = ap (λ (u : Framebuffer). u.width) now.frame in
      let stride : t.pitch_px ≡ s.pitch_px = ap (λ (u : Framebuffer). u.pitch_px) now.frame in
      let back : t.back ≡ s.back = ap (λ (u : Framebuffer). u.back) now.frame in
      record {
        frame =
            ap {A = Framebuffer} {B = Framebuffer}
              (λ u. record u {
                hw = λ q. if q == y * t.pitch_px + x then t.back (y * t.width + x) else t.hw q;
              })
              now.frame;
        pixel =
            rw
              (
                stride,
                width,
                back,
                now.pixel,
                index_eq s.pitch_px py y px x (omega arith) (omega arith),
              )
              (elim (Bool-cases ((py == y) && (px == x))) [
                | inl hit ↦
                    let row : y ≡ py = ground arith in
                    let col : x ≡ px = ground arith in
                    rw (hit, row, col, ==_refl py, ==_refl px) refl
                | inr miss ↦
                    let off : ((y == py) && (x == px)) ≡ false = ground arith in rw (miss, off) refl
              ]);
      }

  send_row :
      (y v : ℕ) (t : Framebuffer)
      → Sent s px py v t
      → Sent s px py (if y == py then s.back (py * s.width + px) else v) (
          for_range s.width 0
            (λ x u. record u {
              hw = λ q. if q == y * u.pitch_px + x then u.back (y * u.width + x) else u.hw q;
            })
            t)
  send_row y v t start =
      let done =
        for_range_inv
          (λ k u. Sent s px py (if (y == py) && ltb px k then s.back (py * s.width + px) else v) u)
          (λ x u. record u {
            hw = λ q. if q == y * u.pitch_px + x then u.back (y * u.width + x) else u.hw q;
          })
          s.width 0 s.width t (omega arith)
          (λ k u low high now.
            let next =
              send_pixel k y (if (y == py) && ltb px k then s.back (py * s.width + px) else v) u
                high now in
            record { frame = next.frame; pixel = next.pixel ∙ ground arith })
          (record { frame = start.frame; pixel = start.pixel ∙ ground arith }) in
      record { frame = done.frame; pixel = done.pixel ∙ ground arith }

fb_present_ready :
    (s : Framebuffer)
    → s.ready ≡ true
    → fb_present s
      ≡ for_range s.height 0
          (λ y. for_range s.width 0 (λ x u. record u {
            hw = λ q. if q == y * u.pitch_px + x then u.back (y * u.width + x) else u.hw q;
          }))
          s
unfolding fb_present
fb_present_ready s ready = simp ready refl

-- Where a line of the hardware has room for a line of the screen, every pixel of the screen is shown:
-- the hardware has at its place what the back buffer has, and the back buffer does not change.
pub fb_present_lem :
    (s : Framebuffer) (px py : ℕ)
    → s.ready ≡ true
    → s.width ≤ s.pitch_px
    → px < s.width
    → py < s.height
    → ((fb_present s).hw (py * s.pitch_px + px) ≡ s.back (py * s.width + px))
      × (fb_present s ≡ record s { hw = (fb_present s).hw })
fb_present_lem s px py ready pitch hx hy =
    let done =
      for_range_inv
        (λ k u.
          Sent s px py
            (if ltb py k then s.back (py * s.width + px) else s.hw (py * s.pitch_px + px)) u)
        (λ y. for_range s.width 0 (λ x u. record u {
          hw = λ q. if q == y * u.pitch_px + x then u.back (y * u.width + x) else u.hw q;
        }))
        s.height 0 s.height s (omega arith)
        (λ k u low high now.
          let next = send_row s px py hx pitch k _ u now in
          record { frame = next.frame; pixel = next.pixel ∙ ground arith })
        (record { frame = refl; pixel = ground arith }) in
    rw (fb_present_ready s ready) (done.pixel ∙ ground arith, done.frame)
