-- ===== src/Mouse.antt =====
-- The mouse driver, src/kernel/mouse.cpp with src/include/mouse.h. The handler's reads of the status and
-- the data port are arguments. The set-up of the controller, port writes alone, is left out, and of
-- `mouse_init` the state that it sets is kept.
pub mod Cursor
pub mod Packets
mod Tests
use paradox_os.Base.{
  Bool, List, false, get_or, if◌then◌else◌, ltb, not, set, true, ℕ, ◌&&◌, ◌+◌, ◌-◌, ◌/◌, ◌==◌, ◌||◌,
}
use paradox_os.Base.Int.{ℤ, pos, negsuc, ◌+ℤ◌, ◌-ℤ◌, ltb_ℤ, leb_ℤ}
use paradox_os.Base.Bits.{test_bit}
use Prim.Native.Nat.{bit_and, bit_or}

-- The static variables of the file; `eois` counts the calls of `pic_send_eoi(12)`.
pub record Mouse : Type 0 where
  pub x : ℤ
  pub y : ℤ
  pub buttons : ℕ
  pub moved : Bool
  pub screen_w : ℤ
  pub screen_h : ℤ
  pub irq_prev_buttons : ℕ
  pub pending_pressed : ℕ
  pub pending_released : ℕ
  pub packet : List ℕ
  pub packet_idx : ℕ
  pub eois : ℕ

-- The screen has a width and a height of at least 0.
pub mouse_init : Mouse → ℕ → ℕ → Mouse
mouse_init s w h = record s {
  screen_w = pos w;
  screen_h = pos h;
  x = pos (w / 2);
  y = pos (h / 2);
  buttons = 0;
  moved = true;
}

-- A byte with the sign that stands in the flags: `d |= 0xFFFFFF00` takes 256 away.
abbrev pub sign_extend : Bool → ℕ → ℤ
sign_extend true b = pos b -ℤ pos 256
sign_extend false b = pos b

-- The two tests of a coordinate, in their order.
abbrev pub at_least_zero : ℤ → ℤ
at_least_zero v = if ltb_ℤ v (pos 0) then pos 0 else v

abbrev pub below_limit : ℤ → ℤ → ℤ
below_limit limit v = if leb_ℤ limit v then limit -ℤ pos 1 else v

-- `g_mouse.y -= dy`, since the mouse counts upwards.
unfoldable pub move_cursor : Mouse → ℕ → ℕ → ℕ → Mouse
unfolding ◌+ℤ◌ ◌-ℤ◌
move_cursor s flags bx by =
    if bit_and flags 0xC0 == 0
    then record s {
      x = below_limit s.screen_w (at_least_zero (s.x +ℤ sign_extend (test_bit flags 4) bx));
      y = below_limit s.screen_h (at_least_zero (s.y -ℤ sign_extend (test_bit flags 5) by));
    }
    else s

-- `a & ~b` on bytes
abbrev pub without : ℕ → ℕ → ℕ
without a b = bit_and a (255 - b)

unfoldable pub take_buttons : Mouse → ℕ → Mouse
take_buttons s new_buttons = record s {
  pending_pressed = bit_or s.pending_pressed (without new_buttons s.irq_prev_buttons);
  pending_released = bit_or s.pending_released (without s.irq_prev_buttons new_buttons);
  irq_prev_buttons = new_buttons;
  buttons = new_buttons;
  moved = true;
}

-- What a full packet does.
unfoldable pub end_packet : Mouse → Mouse
end_packet s =
    take_buttons
      (move_cursor (record s { packet_idx = 0 }) (get_or s.packet 0 0) (get_or s.packet 1 0)
        (get_or s.packet 2 0))
      (bit_and (get_or s.packet 0 0) 7)

unfoldable pub take_byte : Mouse → ℕ → Mouse
take_byte s b =
    if (s.packet_idx == 0) && not (test_bit b 3)
    then s
    else let t : Mouse = record s {
      packet = set s.packet s.packet_idx b;
      packet_idx = s.packet_idx + 1;
    } in
      if ltb t.packet_idx 3 then t else end_packet t

-- Every path ends with the end of the interrupt.
unfoldable pub mouse_handler : Mouse → ℕ → ℕ → Mouse
mouse_handler s status b =
    let t = if not (test_bit status 0) || not (test_bit status 5) then s else take_byte s b in
    record t { eois = t.eois + 1 }

pub record MouseEvent : Type 0 where
  pub x : ℤ
  pub y : ℤ
  pub buttons : ℕ
  pub pressed : ℕ
  pub released : ℕ

pub mouse_consume : Mouse → Mouse × Mouse
mouse_consume s = (s, record s { moved = false })

unfoldable pub mouse_consume_event : Mouse → MouseEvent × Mouse
mouse_consume_event s = (
  record {
    x = s.x;
    y = s.y;
    buttons = s.buttons;
    pressed = s.pending_pressed;
    released = s.pending_released;
  },
  record s { pending_pressed = 0; pending_released = 0; moved = false },
)
