-- ===== src/Vga/Tests.antt =====
-- Concrete runs of the text screen.
use paradox_os.Base.{[], arith, false, refl, ℕ, ◌≡◌, ◌≤◌}
use paradox_os.Vga.{Vga, vga_putchar, advance}
use paradox_os.Vga.Screen.{IsValid, vga_putchar-IsValid}

abbrev screen : Vga
screen = record {
  vga_buffer = λ j. j;
  vga_row = 24;
  vga_col = 79;
  vga_color = 15;
  redirect = false;
  gui = [];
}

screen-IsValid : IsValid screen
screen-IsValid = record { row = omega arith; col = omega arith }

tab_stop : (advance (record screen { vga_col = 3 }) 9).vga_col ≡ 8
unfolding advance
tab_stop = refl

vga_putchar-IsValid_example :
    IsValid (vga_putchar screen 65)
    × ((j : ℕ) → 2000 ≤ j → (vga_putchar screen 65).vga_buffer j ≡ screen.vga_buffer j)
vga_putchar-IsValid_example = vga_putchar-IsValid 65 screen-IsValid
