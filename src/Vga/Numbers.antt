-- ===== src/Vga/Numbers.antt =====
-- Printed numbers read back as what they were.
use paradox_os.Base.{
  Bool-cases, List, [], ap, arith, false, if◌then◌else◌, inl, inr, length, ltb, refl, suc, sym,
  zero, ℕ, ◌%◌, ◌*◌, ◌+◌, ◌-◌, ◌/◌, ◌<◌, ◌==◌, ◌^◌, ◌∙◌, ◌∷◌, ◌≡◌, ◌≤◌,
}
use paradox_os.Vga.{
  Vga, hex_char, hex_loop, dec_loop, vga_print, vga_print_hex, vga_print_dec, vga_putchar,
  print_chars,
}

-- The number that a text of digits stands for, behind the digits of `acc`.
unfoldable pub read_dec : ℕ → List ℕ → ℕ
read_dec acc [] = acc
read_dec acc (c ∷ cs) = read_dec (acc * 10 + (c - 48)) cs

unfoldable pub read_hex : ℕ → List ℕ → ℕ
read_hex acc [] = acc
read_hex acc (c ∷ cs) = read_hex (acc * 16 + (if ltb c 58 then c - 48 else c - 55)) cs

unfoldable pub power : ℕ → ℕ → ℕ
power b zero = 1
power b (suc n) = b * power b n

read_dec-dec_loop :
    (fuel value : ℕ) (buffer : List ℕ)
    → value < power 10 fuel
    → read_dec 0 (dec_loop fuel value buffer) ≡ read_dec value buffer
unfolding read_dec dec_loop power
read_dec-dec_loop zero value buffer h = let none_left : value ≡ 0 = omega arith in rw none_left refl
read_dec-dec_loop (suc i) value buffer h = elim (Bool-cases (value == 0)) [
  | inl e ↦ let none_left : value ≡ 0 = ground arith in rw none_left refl
  | inr e ↦
      let whole : value / 10 * 10 + (48 + value % 10 - 48) ≡ value = omega arith in
      rw e (
        read_dec-dec_loop i (value / 10) ((48 + value % 10) ∷ buffer) (omega arith)
        ∙ ap (λ v. read_dec v buffer) whole)
]

hex_digit :
    (d : ℕ) → d < 16 → (if ltb (hex_char d) 58 then hex_char d - 48 else hex_char d - 55) ≡ d
hex_digit d h = ground arith

read_hex-hex_loop :
    (n value : ℕ) (buffer : List ℕ)
    → value < power 16 n
    → read_hex 0 (hex_loop n value buffer) ≡ read_hex value buffer
unfolding read_hex hex_loop power
read_hex-hex_loop zero value buffer h = let none_left : value ≡ 0 = omega arith in rw none_left refl
read_hex-hex_loop (suc n) value buffer h =
    let digit = hex_digit (value % 16) (omega arith) in
    let whole : value / 16 * 16 + value % 16 ≡ value = omega arith in
    read_hex-hex_loop n (value / 16) (hex_char (value % 16) ∷ buffer) (omega arith)
    ∙ ap (λ v. read_hex v buffer) (ap (λ d. value / 16 * 16 + d) digit ∙ whole)

length-hex_loop :
    (n value : ℕ) (buffer : List ℕ) → length (hex_loop n value buffer) ≡ n + length buffer
unfolding hex_loop
length-hex_loop zero value buffer = omega arith
length-hex_loop (suc n) value buffer =
    omega (arith, length-hex_loop n (value / 16) (hex_char (value % 16) ∷ buffer))

length-dec_loop_le :
    (n value : ℕ) (buffer : List ℕ) → length buffer ≤ length (dec_loop n value buffer)
unfolding dec_loop
length-dec_loop_le zero value buffer = omega arith
length-dec_loop_le (suc n) value buffer =
    ground (arith, length-dec_loop_le n (value / 10) ((48 + value % 10) ∷ buffer))

length-dec_loop :
    (n value : ℕ) (buffer : List ℕ)
    → (value == 0) ≡ false
    → length buffer < length (dec_loop (suc n) value buffer)
unfolding dec_loop
length-dec_loop n value buffer e =
    rw e (omega (arith, length-dec_loop_le n (value / 10) ((48 + value % 10) ∷ buffer)))

vga_print-one : (s : Vga) (c : ℕ) → vga_print s (c ∷ []) ≡ vga_putchar s c
unfolding vga_print vga_putchar print_chars
vga_print-one s c = elim (Bool-cases s.redirect) [ inl e ↦ simp e refl | inr e ↦ simp e refl ]

hex_limit : 2 ^ 32 ≤ power 16 8
unfolding power
hex_limit = omega arith

dec_limit : 2 ^ 64 < power 10 20
unfolding power
dec_limit = omega arith

-- The text that `vga_print_dec` prints for a 64-bit number stands for that number: the 20 places of
-- its buffer are enough, and zero prints a digit.
pub vga_print_dec-read_dec :
    (s : Vga) (value : ℕ)
    → value < 2 ^ 64
    → (text : List ℕ) × (vga_print_dec s value ≡ vga_print s text)
      × (read_dec 0 text ≡ value)
      × (0 < length text)
unfolding vga_print_dec read_dec
vga_print_dec-read_dec s value h = elim (Bool-cases (value == 0)) [
  | inl e ↦
      let zero_value : value ≡ 0 = ground arith in
      rw zero_value (48 ∷ [], sym (vga_print-one s 48), refl, omega arith)
  | inr e ↦ rw e (
    dec_loop 20 value [],
    refl,
    read_dec-dec_loop 20 value [] (omega (arith, dec_limit)),
    length-dec_loop 19 value [] e,
  )
]

-- The eight characters that `vga_print_hex` prints for a 32-bit number stand for that number.
pub vga_print_hex-read_hex :
    (s : Vga) (value : ℕ)
    → value < 2 ^ 32
    → (text : List ℕ) × (vga_print_hex s value ≡ vga_print s text)
      × (read_hex 0 text ≡ value)
      × (length text ≡ 8)
unfolding vga_print_hex read_hex
vga_print_hex-read_hex s value h = (
  hex_loop 8 value [],
  refl,
  read_hex-hex_loop 8 value [] (omega (arith, hex_limit)),
  length-hex_loop 8 value [],
)
