-- ===== src/Vga.antt =====
-- The text screen, src/kernel/vga.cpp. `vga_buffer` is the memory from the start of the screen on, by
-- cells: the screen has the first 2000 of them, row by row. A string is its characters without the
-- final NUL. `gui` collects what is passed on to the desktop's terminal.
pub mod Screen
pub mod Numbers
mod Tests
use paradox_os.Base.{
  Bool, List, [], for_range, if◌then◌else◌, leb, ltb, suc, zero, ℕ, ◌%◌, ◌*◌, ◌++◌, ◌+◌, ◌-◌, ◌/◌,
  ◌==◌, ◌∷◌,
}
use Prim.Native.Nat.{bit_or}

abbrev pub vga_width : ℕ
vga_width = 80

abbrev pub vga_height : ℕ
vga_height = 25

pub record Vga : Type 0 where
  pub vga_buffer : ℕ → ℕ
  pub vga_row : ℕ
  pub vga_col : ℕ
  pub vga_color : ℕ
  pub redirect : Bool
  pub gui : List ℕ

pub vga_set_gui_redirect : Vga → Bool → Vga
vga_set_gui_redirect s on = record s { redirect = on }

-- `c | (color << 8)` as 16 bits: a `char` from 128 on is negative, and its sign is extended.
abbrev pub cell : ℕ → ℕ → ℕ
cell c color = bit_or (if ltb c 128 then c else c + 0xff00) (color * 256)

abbrev pub put_cell : Vga → ℕ → ℕ → Vga
put_cell s index v = record s { vga_buffer = λ q. if q == index then v else s.vga_buffer q }

unfoldable pub vga_clear : Vga → Vga
vga_clear s =
    let t =
      for_range vga_height 0
        (λ y. for_range vga_width 0 (λ x u. put_cell u (y * vga_width + x) (cell 32 u.vga_color)))
        s in
    record t { vga_row = 0; vga_col = 0 }

-- White on black
unfoldable pub vga_init : Vga → Vga
vga_init s = vga_clear (record s { vga_row = 0; vga_col = 0; vga_color = 15 })

pub vga_setcolor : Vga → ℕ → ℕ → Vga
vga_setcolor s fg bg = record s { vga_color = bit_or fg (bg * 16) % 256 }

-- The loop over all rows but the last, and the one that clears the last.
unfoldable pub move_up : Vga → Vga
move_up = for_range (vga_height - 1) 0 (λ y.
    for_range vga_width 0
      (λ x u. put_cell u (y * vga_width + x) (u.vga_buffer ((y + 1) * vga_width + x))))

unfoldable pub clear_last : Vga → Vga
clear_last =
    for_range vga_width 0
      (λ x u. put_cell u ((vga_height - 1) * vga_width + x) (cell 32 u.vga_color))

unfoldable pub vga_scroll : Vga → Vga
vga_scroll s = record (clear_last (move_up s)) { vga_row = vga_height - 1 }

-- The five cases of the character.
unfoldable pub advance : Vga → ℕ → Vga
advance s c =
    if c == 10
    then record s { vga_col = 0; vga_row = s.vga_row + 1 }
    else if c == 9
    then record s { vga_col = (s.vga_col + 8) / 8 * 8 }
    else if c == 13
    then record s { vga_col = 0 }
    else if c == 8
    then record s { vga_col = s.vga_col - 1 }
    else record (put_cell s (s.vga_row * vga_width + s.vga_col) (cell c s.vga_color)) {
      vga_col = s.vga_col + 1;
    }

unfoldable pub wrap_line : Vga → Vga
wrap_line s =
    if leb vga_width s.vga_col then record s { vga_col = 0; vga_row = s.vga_row + 1 } else s

unfoldable pub vga_putchar : Vga → ℕ → Vga
vga_putchar s c =
    if s.redirect
    then record s { gui = s.gui ++ (c ∷ []) }
    else let t = wrap_line (advance s c) in if leb vga_height t.vga_row then vga_scroll t else t

unfoldable pub print_chars : Vga → List ℕ → Vga
print_chars s [] = s
print_chars s (c ∷ cs) = print_chars (vga_putchar s c) cs

unfoldable pub vga_print : Vga → List ℕ → Vga
vga_print s str = if s.redirect then record s { gui = s.gui ++ str } else print_chars s str

-- `hex_chars[value & 0xF]`
abbrev pub hex_char : ℕ → ℕ
hex_char d = if ltb d 10 then 48 + d else 55 + d

-- The last `n` hexadecimal digits of a number, in front of what is written already.
unfoldable pub hex_loop : ℕ → ℕ → List ℕ → List ℕ
hex_loop zero value buffer = buffer
hex_loop (suc n) value buffer = hex_loop n (value / 16) (hex_char (value % 16) ∷ buffer)

pub vga_print_hex : Vga → ℕ → Vga
vga_print_hex s value = vga_print s (hex_loop 8 value [])

-- The decimal digits: at most as many as the buffer has room for.
unfoldable pub dec_loop : ℕ → ℕ → List ℕ → List ℕ
dec_loop zero value buffer = buffer
dec_loop (suc i) value buffer =
    let rest = dec_loop i (value / 10) ((48 + value % 10) ∷ buffer) in
    if value == 0 then buffer else rest

pub vga_print_dec : Vga → ℕ → Vga
vga_print_dec s value = if value == 0 then vga_putchar s 48 else vga_print s (dec_loop 20 value [])

pub vga_print_hex_byte : Vga → ℕ → Vga
vga_print_hex_byte s num =
    vga_putchar (vga_putchar s (hex_char (num / 16 % 16))) (hex_char (num % 16))

pub vga_print_hex_word : Vga → ℕ → Vga
vga_print_hex_word s num =
    vga_putchar
      (vga_putchar
        (vga_putchar (vga_putchar s (hex_char (num / 4096 % 16))) (hex_char (num / 256 % 16)))
        (hex_char (num / 16 % 16)))
      (hex_char (num % 16))
