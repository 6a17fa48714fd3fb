-- ===== src/Pic.antt =====
-- The interrupt controllers, src/kernel/pic.cpp with src/include/pic.h. `mask1` and `mask2` are the
-- mask registers, which the data ports give; `out` collects what is written to the ports, oldest
-- first, as pairs of a port and a value. The delays by port 0x80 are left out.
pub mod Masks
mod Tests
use paradox_os.Base.{List, [], if◌then◌else◌, leb, ltb, ℕ, ◌++◌, ◌-◌, ◌==◌, ◌∷◌}
use paradox_os.Base.Bits.{set_bit, clear_bit}

pub record Pic : Type 0 where
  pub mask1 : ℕ
  pub mask2 : ℕ
  pub out : List (ℕ × ℕ)

-- The two command ports and the two data ports.
abbrev pub pic1_command : ℕ
pic1_command = 0x20

abbrev pub pic1_data : ℕ
pic1_data = 0x21

abbrev pub pic2_command : ℕ
pic2_command = 0xA0

abbrev pub pic2_data : ℕ
pic2_data = 0xA1

unfoldable pub outb : Pic → ℕ → ℕ → Pic
outb s port v = record s { out = s.out ++ ((port, v) ∷ []) }

-- A write to a data port outside the initialisation sets the mask.
unfoldable pub write_mask : Pic → ℕ → ℕ → Pic
unfolding outb
write_mask s port v =
    let t = outb s port v in
    if port == pic1_data then record t { mask1 = v } else record t { mask2 = v }

abbrev pub read_mask : Pic → ℕ → ℕ
read_mask s port = if port == pic1_data then s.mask1 else s.mask2

pub pic_disable_all : Pic → Pic
unfolding outb write_mask
pic_disable_all s = write_mask (write_mask s pic1_data 0xFF) pic2_data 0xFF

-- The initialisation words: the offsets of the vectors, the cascade and the mode.
pub pic_init : Pic → Pic
unfolding outb write_mask
pic_init s =
    let s1 = outb (outb s pic1_command 0x11) pic2_command 0x11 in
    let s2 = outb (outb s1 pic1_data 0x20) pic2_data 0x28 in
    let s3 = outb (outb s2 pic1_data 0x04) pic2_data 0x02 in
    let s4 = outb (outb s3 pic1_data 0x01) pic2_data 0x01 in
    write_mask (write_mask s4 pic1_data 0xFF) pic2_data 0xFF

unfoldable pub pic_send_eoi : Pic → ℕ → Pic
unfolding outb
pic_send_eoi s irq = outb (if leb 8 irq then outb s pic2_command 0x20 else s) pic1_command 0x20

unfoldable pub pic_set_mask : Pic → ℕ → Pic
unfolding outb write_mask
pic_set_mask s irq =
    let port = if ltb irq 8 then pic1_data else pic2_data in
    let line = if ltb irq 8 then irq else irq - 8 in
    write_mask s port (set_bit (read_mask s port) line)

unfoldable pub pic_clear_mask : Pic → ℕ → Pic
unfolding outb write_mask
pic_clear_mask s irq =
    let port = if ltb irq 8 then pic1_data else pic2_data in
    let line = if ltb irq 8 then irq else irq - 8 in
    write_mask s port (clear_bit (read_mask s port) line)
