-- ===== src/Keyboard.antt =====
-- The keyboard driver, src/kernel/keyboard.cpp with src/include/keyboard.h. The scan code that the
-- handler reads from its port is an argument; whether a program runs in user mode and what
-- `gui_handle_key` answers are, too. `gui` and `shell` collect the characters passed on to the
-- desktop and to the shell.
pub mod Ring
pub mod Layout
mod Tests
use paradox_os.Base.{
  Bool, List, Option, [], get_or, if◌then◌else◌, leb, length, ltb, none, not, set, some, ℕ, ◌%◌,
  ◌&&◌, ◌++◌, ◌+◌, ◌-◌, ◌==◌, ◌^◌, ◌||◌, ◌∷◌,
}
use paradox_os.Base.Bits.{set_bit, clear_bit, test_bit}
use Prim.Native.Nat.{bit_xor}
use paradox_os.Stdin.{Stdin, stdin_push}

pub record Keyboard : Type 0 where
  pub modifiers : ℕ
  pub key_buffer : List ℕ
  pub buffer_start : ℕ
  pub buffer_end : ℕ
  pub stdin : Stdin
  pub gui : List ℕ
  pub shell : List ℕ

-- The modifier flags are the bits 0 to 3.
abbrev pub mod_shift : ℕ
mod_shift = 0

abbrev pub mod_ctrl : ℕ
mod_ctrl = 1

abbrev pub mod_alt : ℕ
mod_alt = 2

abbrev pub mod_capslock : ℕ
mod_capslock = 3

abbrev pub scancode_to_ascii : List ℕ
scancode_to_ascii =
    0 ∷ 0 ∷ 49 ∷ 50 ∷ 51 ∷ 52 ∷ 53 ∷ 54 ∷ 55 ∷ 56 ∷ 57 ∷ 48 ∷ 45 ∷ 61 ∷ 8 ∷ 9 ∷ 113 ∷ 119 ∷ 101
    ∷ 114 ∷ 116 ∷ 121 ∷ 117 ∷ 105 ∷ 111 ∷ 112 ∷ 91 ∷ 93 ∷ 10 ∷ 0 ∷ 97 ∷ 115 ∷ 100 ∷ 102 ∷ 103 ∷ 104
    ∷ 106 ∷ 107 ∷ 108 ∷ 59 ∷ 39 ∷ 96 ∷ 0 ∷ 92 ∷ 122 ∷ 120 ∷ 99 ∷ 118 ∷ 98 ∷ 110 ∷ 109 ∷ 44 ∷ 46 ∷ 47
    ∷ 0 ∷ 42 ∷ 0 ∷ 32 ∷ []

abbrev pub scancode_to_ascii_shift : List ℕ
scancode_to_ascii_shift =
    0 ∷ 0 ∷ 33 ∷ 64 ∷ 35 ∷ 36 ∷ 37 ∷ 94 ∷ 38 ∷ 42 ∷ 40 ∷ 41 ∷ 95 ∷ 43 ∷ 8 ∷ 9 ∷ 81 ∷ 87 ∷ 69 ∷ 82
    ∷ 84 ∷ 89 ∷ 85 ∷ 73 ∷ 79 ∷ 80 ∷ 123 ∷ 125 ∷ 10 ∷ 0 ∷ 65 ∷ 83 ∷ 68 ∷ 70 ∷ 71 ∷ 72 ∷ 74 ∷ 75 ∷ 76
    ∷ 58 ∷ 34 ∷ 126 ∷ 0 ∷ 124 ∷ 90 ∷ 88 ∷ 67 ∷ 86 ∷ 66 ∷ 78 ∷ 77 ∷ 60 ∷ 62 ∷ 63 ∷ 0 ∷ 42 ∷ 0 ∷ 32
    ∷ []

pub keyboard_init : Keyboard → Keyboard
keyboard_init s = record s { buffer_start = 0; buffer_end = 0; modifiers = 0 }

unfoldable pub buffer_add : Keyboard → ℕ → Keyboard
buffer_add s c =
    let next = (s.buffer_end + 1) % 256 in
    if not (next == s.buffer_start)
    then record s { key_buffer = set s.key_buffer s.buffer_end c; buffer_end = next }
    else s

abbrev pub keyboard_has_key : Keyboard → Bool
keyboard_has_key s = not (s.buffer_start == s.buffer_end)

-- Without a key the program waits for an interrupt: there is no result.
unfoldable pub keyboard_getchar : Keyboard → Option (ℕ × Keyboard)
keyboard_getchar s =
    if keyboard_has_key s
    then some (
      get_or s.key_buffer s.buffer_start 0,
      record s { buffer_start = (s.buffer_start + 1) % 256 },
    )
    else none

abbrev pub is_shift : ℕ → Bool
is_shift scancode = (scancode == 0x2A) || (scancode == 0x36)

unfoldable pub key_up : ℕ → ℕ → ℕ
key_up modifiers scancode =
    if is_shift scancode
    then clear_bit modifiers mod_shift
    else if scancode == 0x1D
    then clear_bit modifiers mod_ctrl
    else if scancode == 0x38
    then clear_bit modifiers mod_alt
    else modifiers

abbrev pub is_lower : ℕ → Bool
is_lower c = leb 97 c && leb c 122

abbrev pub is_upper : ℕ → Bool
is_upper c = leb 65 c && leb c 90

-- The character before the control key is looked at, and behind it.
abbrev pub plain_char : ℕ → ℕ → ℕ
plain_char modifiers scancode =
    if test_bit modifiers mod_shift
    then get_or scancode_to_ascii_shift scancode 0
    else let c = get_or scancode_to_ascii scancode 0 in
      if test_bit modifiers mod_capslock && is_lower c then c - 97 + 65 else c

abbrev pub control_char : ℕ → ℕ → ℕ
control_char modifiers c =
    if test_bit modifiers mod_ctrl
    then (if is_lower c then c - 97 + 1 else if is_upper c then c - 65 + 1 else c)
    else c

unfoldable pub key_char : ℕ → ℕ → ℕ
key_char modifiers scancode =
    if ltb scancode (length scancode_to_ascii)
    then control_char modifiers (plain_char modifiers scancode)
    else 0

-- Where a character goes.
pub route : Bool → (ℕ → Bool) → Keyboard → ℕ → Keyboard
route usermode_active gui_handle_key s c =
    let t = buffer_add s c in
    if usermode_active
    then record t { stdin = stdin_push t.stdin c }
    else let u : Keyboard = record t { gui = t.gui ++ (c ∷ []) } in
      if not (gui_handle_key c) then record u { shell = u.shell ++ (c ∷ []) } else u

unfoldable pub key_down : Bool → (ℕ → Bool) → Keyboard → ℕ → Keyboard
key_down usermode_active gui_handle_key s scancode =
    if is_shift scancode
    then record s { modifiers = set_bit s.modifiers mod_shift }
    else if scancode == 0x1D
    then record s { modifiers = set_bit s.modifiers mod_ctrl }
    else if scancode == 0x38
    then record s { modifiers = set_bit s.modifiers mod_alt }
    else if scancode == 0x3A
    then record s { modifiers = bit_xor s.modifiers (2 ^ mod_capslock) }
    else let c = key_char s.modifiers scancode in
      if not (c == 0) then route usermode_active gui_handle_key s c else s

pub keyboard_handler : Bool → (ℕ → Bool) → Keyboard → ℕ → Keyboard
keyboard_handler usermode_active gui_handle_key s scancode =
    if leb 0x80 scancode
    then record s { modifiers = key_up s.modifiers (scancode - 0x80) }
    else key_down usermode_active gui_handle_key s scancode
