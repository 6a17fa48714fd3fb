-- ===== src/Keyboard/Tests.antt =====
-- Concrete runs of the keyboard driver.
use paradox_os.Base.{
  [], arith, false, if◌then◌else◌, length, length-replicate, ltb, refl, replicate, ℕ, ◌++◌, ◌∷◌,
  ◌≡◌,
}
use paradox_os.Base.Bits.{test_bit}
use paradox_os.Keyboard.{Keyboard, buffer_add, key_char}
use paradox_os.Keyboard.Ring.{IsValid, pending, buffer_add-pending}
use paradox_os.Keyboard.Layout.{described, key_char-described}

abbrev fresh : Keyboard
fresh = record {
  modifiers = 0;
  key_buffer = replicate 256 0;
  buffer_start = 255;
  buffer_end = 255;
  stdin = record { line = []; ready = false; echo = [] };
  gui = [];
  shell = [];
}

fresh-IsValid : IsValid fresh
fresh-IsValid = record {
  size = length-replicate {A = ℕ} 256 0;
  first = omega arith;
  behind = omega arith;
}

-- Control and c, and shift and semicolon
control_c : key_char 2 46 ≡ 3
unfolding key_char test_bit
control_c = refl

colon : key_char 1 39 ≡ 58
unfolding key_char test_bit
colon = refl

buffer_add-pending_example :
    (pending (buffer_add fresh 65)
      ≡ (if ltb (length (pending fresh)) 255 then pending fresh ++ (65 ∷ []) else pending fresh))
    × IsValid (buffer_add fresh 65)
buffer_add-pending_example = buffer_add-pending 65 fresh-IsValid

key_char-described_example : key_char 8 30 ≡ described 8 30
key_char-described_example = key_char-described 8 30 (omega arith) (omega arith)
