-- ===== src/Gui/Format.antt =====
-- Numbers as texts, and two computations for the painting, in src/kernel/gui.cpp. A text is without the
-- final NUL; `size` is that of the array it is written to, which has
-- room for the NUL at least. The loop of `fmt_u64` is that of the calculator.
pub mod Numbers
pub mod Roots
mod Tests
use paradox_os.Base.{
  List, [], if◌then◌else◌, leb, length, ltb, suc, take, zero, ℕ, ◌%◌, ◌*◌, ◌++◌, ◌+◌, ◌-◌, ◌/◌, ◌^◌,
  ◌∷◌,
}
use paradox_os.Base.Int.{ℤ, pos, pos_part, leb_ℤ}
use paradox_os.Gui.Calculator.{magnitude}

unfoldable pub fmt_u64 : ℕ → ℕ → List ℕ
fmt_u64 size v = take (size - 1) (magnitude v)

abbrev pub hex_digit : ℕ → ℕ
hex_digit d = if ltb d 10 then 48 + d else 55 + d

-- The digits from place `n - 1` down, as far as there is room behind the `at` characters before them.
unfoldable pub hex_digits : ℕ → ℕ → ℕ → ℕ → List ℕ
hex_digits size v zero at = []
hex_digits size v (suc n) at =
    let rest = hex_digits size v n (at + 1) in
    if ltb (at + 1) size then hex_digit (v / 2 ^ (n * 4) % 16) ∷ rest else []

unfoldable pub fmt_hex : ℕ → ℕ → ℕ → List ℕ
fmt_hex size v digits =
    if ltb 2 size then 48 ∷ 120 ∷ hex_digits size v digits 2 else hex_digits size v digits 0

-- `dst` has `pos` characters.
unfoldable pub cat : List ℕ → ℕ → List ℕ → List ℕ
cat dst size [] = dst
cat dst size (c ∷ src) =
    let rest = cat (dst ++ (c ∷ [])) size src in if ltb (length dst + 1) size then rest else dst

-- The loop of the root, on fuel. The square of a root of a number below 2 ^ 30 has no overflow.
unfoldable pub isqrt_loop : ℕ → ℕ → ℕ → ℕ
isqrt_loop zero v r = r
isqrt_loop (suc fuel) v r =
    let rest = isqrt_loop fuel v (r + 1) in if leb ((r + 1) * (r + 1)) v then rest else r

unfoldable pub isqrt32 : ℤ → ℕ
isqrt32 v = if leb_ℤ v (pos 0) then 0 else isqrt_loop (pos_part v) (pos_part v) 0
