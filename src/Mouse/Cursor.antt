-- ===== src/Mouse/Cursor.antt =====
-- The cursor stays on the screen.
use paradox_os.Base.{
  Bool-cases, arith, get_or, inl, inr, length, length-set, ltb, ltb→lt, not, set, ℕ, ◌&&◌, ◌+◌, ◌<◌,
  ◌==◌, ◌||◌, ◌∙◌, ◌≡◌,
}
use paradox_os.Base.Bits.{test_bit}
use Prim.Native.Nat.{bit_and}
use paradox_os.Base.Int.{ℤ, pos, ◌+ℤ◌, ◌-ℤ◌, ◌≤ℤ◌, ◌<ℤ◌}
use paradox_os.Mouse.{
  Mouse, sign_extend, at_least_zero, below_limit, move_cursor, take_buttons, end_packet, take_byte,
  mouse_handler,
}

-- The cursor is on the screen, which has a pixel at least, and the packet is not full.
pub record IsValid (s : Mouse) : Type 0 where
  pub left : pos 0 ≤ℤ s.x
  pub right : s.x <ℤ s.screen_w
  pub top : pos 0 ≤ℤ s.y
  pub bottom : s.y <ℤ s.screen_h
  pub packet_size : length s.packet ≡ 3
  pub packet_room : s.packet_idx < 3

clamped :
    (limit v : ℤ)
    → pos 0 <ℤ limit
    → (pos 0 ≤ℤ below_limit limit (at_least_zero v))
      × (below_limit limit (at_least_zero v) <ℤ limit)
unfolding ◌-ℤ◌
clamped limit v some_room = ground arith

move_cursor-IsValid :
    (s : Mouse) (flags bx by : ℕ) → IsValid s → IsValid (move_cursor s flags bx by)
unfolding move_cursor
move_cursor-IsValid s flags bx by v = elim (Bool-cases (bit_and flags 0xC0 == 0)) [
  | inr overflow ↦ simp overflow v
  | inl good ↦
      let wide : pos 0 <ℤ s.screen_w = omega (arith, v.left, v.right) in
      let high : pos 0 <ℤ s.screen_h = omega (arith, v.top, v.bottom) in
      let h = clamped s.screen_w (s.x +ℤ sign_extend (test_bit flags 4) bx) wide in
      let w = clamped s.screen_h (s.y -ℤ sign_extend (test_bit flags 5) by) high in
      simp good (record {
        left = h.0;
        right = h.1;
        top = w.0;
        bottom = w.1;
        packet_size = v.packet_size;
        packet_room = v.packet_room;
      })
]

end_packet-IsValid : (s : Mouse) → IsValid (record s { packet_idx = 0 }) → IsValid (end_packet s)
unfolding end_packet take_buttons
end_packet-IsValid s v =
    let m =
      move_cursor-IsValid (record s { packet_idx = 0 }) (get_or s.packet 0 0) (get_or s.packet 1 0)
        (get_or s.packet 2 0) v in
    record {
      left = m.left;
      right = m.right;
      top = m.top;
      bottom = m.bottom;
      packet_size = m.packet_size;
      packet_room = m.packet_room;
    }

take_byte-IsValid : (s : Mouse) (b : ℕ) → IsValid s → IsValid (take_byte s b)
unfolding take_byte
take_byte-IsValid s b v = elim (Bool-cases ((s.packet_idx == 0) && not (test_bit b 3))) [
  | inl out_of_step ↦ simp out_of_step v
  | inr in_step ↦
      let size : length (set s.packet s.packet_idx b) ≡ 3 =
        length-set s.packet s.packet_idx b ∙ v.packet_size in
      elim (Bool-cases (ltb (s.packet_idx + 1) 3)) [
        | inl more ↦
            simp (in_step, more)
              (record {
                left = v.left;
                right = v.right;
                top = v.top;
                bottom = v.bottom;
                packet_size = size;
                packet_room = ltb→lt _ _ more;
              })
        | inr full ↦
            simp (in_step, full)
              (end_packet-IsValid
                (record s { packet = set s.packet s.packet_idx b; packet_idx = s.packet_idx + 1 })
                (record {
                  left = v.left;
                  right = v.right;
                  top = v.top;
                  bottom = v.bottom;
                  packet_size = size;
                  packet_room = omega arith;
                }))
      ]
]

-- Whatever the ports give, an interrupt of the mouse leaves the cursor on the screen, and the packet
-- in its array.
pub mouse_handler-IsValid :
    {s : Mouse} (status b : ℕ) → IsValid s → IsValid (mouse_handler s status b)
unfolding mouse_handler
mouse_handler-IsValid {s} status b v =
    let t = take_byte-IsValid s b v in
    elim (Bool-cases (not (test_bit status 0) || not (test_bit status 5))) [
      | inl other ↦ simp other (record {
        left = v.left;
        right = v.right;
        top = v.top;
        bottom = v.bottom;
        packet_size = v.packet_size;
        packet_room = v.packet_room;
      })
      | inr mine ↦ simp mine (record {
        left = t.left;
        right = t.right;
        top = t.top;
        bottom = t.bottom;
        packet_size = t.packet_size;
        packet_room = t.packet_room;
      })
    ]
