-- ===== src/Mouse/Tests.antt =====
-- Concrete packets.
use paradox_os.Base.{[], arith, false, refl, ◌||◌, ◌∷◌, ◌≡◌}
use paradox_os.Base.Bits.{test_bit}
use paradox_os.Base.Int.{pos}
use paradox_os.Mouse.{
  Mouse, mouse_handler, mouse_consume_event, take_byte, end_packet, move_cursor, take_buttons,
}
use paradox_os.Mouse.Cursor.{IsValid, mouse_handler-IsValid}
use paradox_os.Mouse.Packets.{HasMasks, goes_down, goes_up, take_all, mouse_consume_event-edges}

abbrev mouse : Mouse
mouse = record {
  x = pos 2;
  y = pos 3;
  buttons = 0;
  moved = false;
  screen_w = pos 1024;
  screen_h = pos 768;
  irq_prev_buttons = 0;
  pending_pressed = 0;
  pending_released = 0;
  packet = 0 ∷ 0 ∷ 0 ∷ [];
  packet_idx = 0;
  eois = 0;
}

-- Five to the left and one up, from 2 and 3.
stops_at_the_edge :
    (mouse_handler (mouse_handler (mouse_handler mouse 0x21 0x19) 0x21 0xFB) 0x21 1).x ≡ pos 0
unfolding mouse_handler take_byte end_packet move_cursor take_buttons test_bit
stops_at_the_edge = refl

mouse-IsValid : IsValid mouse
mouse-IsValid = record {
  left = omega arith;
  right = omega arith;
  top = omega arith;
  bottom = omega arith;
  packet_size = refl;
  packet_room = omega arith;
}

mouse-HasMasks : HasMasks mouse
mouse-HasMasks = record { prev = omega arith; pressed = omega arith; released = omega arith }

mouse_handler-IsValid_example : IsValid (mouse_handler mouse 0x21 0x09)
mouse_handler-IsValid_example = mouse_handler-IsValid 0x21 0x09 mouse-IsValid

-- The left button down and up again
mouse_consume_event-edges_example :
    (test_bit (mouse_consume_event (take_all mouse (1 ∷ 0 ∷ []))).0.pressed 0
      ≡ (test_bit mouse.pending_pressed 0 || goes_down 0 mouse.irq_prev_buttons (1 ∷ 0 ∷ [])))
    × (test_bit (mouse_consume_event (take_all mouse (1 ∷ 0 ∷ []))).0.released 0
        ≡ (test_bit mouse.pending_released 0 || goes_up 0 mouse.irq_prev_buttons (1 ∷ 0 ∷ [])))
mouse_consume_event-edges_example =
    mouse_consume_event-edges 0 mouse (1 ∷ 0 ∷ []) (omega arith) (omega arith, (omega arith, tt))
      mouse-HasMasks
