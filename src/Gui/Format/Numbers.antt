-- ===== src/Gui/Format/Numbers.antt =====
-- The texts fit in their arrays, and numbers read back.
use paradox_os.Base.{
  Bool-cases, List, [], arith, inl, inr, length, length-append, ltb, ltb→lt, refl, suc, sym, take,
  zero, ℕ, ◌++◌, ◌+◌, ◌-◌, ◌<◌, ◌^◌, ◌∙◌, ◌∷◌, ◌≡◌, ◌≤◌,
}
use mathlib.Core.List.{append-nil, append_assoc}
use paradox_os.Gui.Calculator.{magnitude, parse_digits}
use paradox_os.Gui.Calculator.Display.{length-magnitude, parse_digits-magnitude, take-all}
use paradox_os.Gui.Format.{fmt_u64, hex_digits, fmt_hex, cat}

-- A 64-bit number whose text has 21 characters with its NUL reads back as that number.
pub fmt_u64-parse_digits :
    (size v : ℕ) → 21 ≤ size → v < 2 ^ 64 → parse_digits 0 (fmt_u64 size v) ≡ v
unfolding fmt_u64
fmt_u64-parse_digits size v room small =
    rw (take-all (size - 1) (magnitude v) (omega (arith, length-magnitude v, room)))
      (parse_digits-magnitude v small)

take-nil : (n : ℕ) → take {A = ℕ} n [] ≡ []
take-nil zero = refl
take-nil (suc n) = refl

-- What is appended is as much of the text as the array has room for.
pub cat_lem :
    (dst : List ℕ) (size : ℕ) (src : List ℕ)
    → cat dst size src ≡ dst ++ take (size - 1 - length dst) src
unfolding cat
cat_lem dst size [] = rw (take-nil (size - 1 - length dst), append-nil dst) refl
cat_lem dst size (c ∷ src) = elim (Bool-cases (ltb (length dst + 1) size)) [
  | inr full ↦
      let no_room : size - 1 - length dst ≡ 0 = ground (arith, full) in
      rw (full, no_room) (sym (append-nil dst))
  | inl more ↦
      let room : size - 1 - length dst ≡ suc (size - 1 - length (dst ++ (c ∷ []))) =
        ground (arith, more, length-append dst (c ∷ [])) in
      rw (more, room) (cat_lem (dst ++ (c ∷ [])) size src ∙ append_assoc dst (c ∷ []) (take _ src))
]

hex_digits-fit : (size v n at : ℕ) → at < size → at + length (hex_digits size v n at) < size
unfolding hex_digits
hex_digits-fit size v zero at h = omega (arith, h)
hex_digits-fit size v (suc n) at h = elim (Bool-cases (ltb (at + 1) size)) [
  | inl more ↦ rw more (omega (arith, hex_digits-fit size v n (at + 1) (ltb→lt _ _ more)))
  | inr full ↦ rw full (omega (arith, h))
]

-- A hexadecimal text and its NUL stay within their array.
pub fmt_hex-fits : (size v digits : ℕ) → 0 < size → length (fmt_hex size v digits) < size
unfolding fmt_hex
fmt_hex-fits size v digits h = elim (Bool-cases (ltb 2 size)) [
  | inl e ↦ rw e (omega (arith, hex_digits-fit size v digits 2 (ltb→lt _ _ e)))
  | inr e ↦ rw e (omega (arith, hex_digits-fit size v digits 0 h))
]
