-- ===== src/Gui/Calculator/Sums.antt =====
-- Whole calculations, button by button.
use paradox_os.Base.{
  Bool-cases, List, [], ap, arith, false, if◌then◌else◌, inl, inr, leb, length, not, refl, true, ℕ,
  ◌&&◌, ◌*◌, ◌+◌, ◌-◌, ◌/◌, ◌<◌, ◌==◌, ◌^◌, ◌∙◌, ◌∷◌, ◌≡◌,
}
use paradox_os.Base.Int.{ℤ, pos, negsuc, pos_part, neg_part, ◌+ℤ◌, ◌-ℤ◌, ◌*ℤ◌, ◌/ℤ◌}
use paradox_os.Gui.Calculator.{
  Calc, number_text, parse_text, press_operator, press_equals, is_operator, calc_press, calc_apply,
  calc_parse_display,
}
use paradox_os.Gui.Calculator.Display.{parse_text-number_text}
use paradox_os.Gui.Calculator.Typing.{type_digits, written, AreDigits, type_number, shown_number}

press_operator-first :
    (t : Calc) (op : ℕ)
    → t.op ≡ 0
    → is_operator op ≡ true
    → calc_press t (op ∷ []) ≡ record t { acc = calc_parse_display t; op = op; fresh = true }
unfolding calc_press press_operator
press_operator-first t op idle is =
    let other : ((leb 48 op && leb op 57) && (0 == 0)) ≡ false = ground (arith, is) in
    let free : (not (t.op == 0) && not t.fresh) ≡ false = rw idle refl in rw (other, is, free) refl

press_equals-shows :
    (t : Calc)
    → (t.op == 0) ≡ false
    → (calc_press t (61 ∷ [])).display ≡ number_text (calc_apply t.op t.acc (calc_parse_display t))
unfolding calc_press press_equals
press_equals-shows t busy = rw busy refl

-- What an operator means for two numbers; a quotient drops its fraction, and is 0 for a divisor 0.
abbrev pub meaning : ℕ → ℕ → ℕ → ℤ
meaning op a b =
    if op == 43
    then pos (a + b)
    else if op == 45
    then (if leb b a then pos (a - b) else negsuc (b - a - 1))
    else if op == 42
    then pos (a * b)
    else (if b == 0 then pos 0 else pos (a / b))

calc_apply-meaning :
    (op a b : ℕ) → is_operator op ≡ true → calc_apply op (pos a) (pos b) ≡ meaning op a b
unfolding calc_apply ◌+ℤ◌ ◌-ℤ◌ ◌*ℤ◌ ◌/ℤ◌
calc_apply-meaning op a b is = elim (Bool-cases (op == 43)) [
  | inl e ↦ rw e (ground arith)
  | inr e ↦ elim (Bool-cases (op == 45)) [
    | inl e2 ↦ rw (e, e2) (ground arith)
    | inr e2 ↦ elim (Bool-cases (op == 42)) [
      | inl e3 ↦ rw (e, e2, e3) (ground arith)
      | inr e3 ↦
          let e4 : (op == 47) ≡ true = ground (arith, is, e, e2, e3) in
          rw (e, e2, e3, e4) (elim (Bool-cases (b == 0)) [ inl z ↦ rw z refl | inr z ↦ rw z refl ])
    ]
  ]
]

-- A number, an operator, another number and `=`: the display then shows the result of the operator on
-- the two numbers. The calculator is idle before, a number has 22 digits at most, and both numbers and
-- the result are below 2 ^ 63 in size.
pub calc_press-calculates :
    (op d e : ℕ) (ds es : List ℕ) (s : Calc)
    → is_operator op ≡ true
    → s.fresh ≡ true
    → s.op ≡ 0
    → AreDigits (d ∷ ds)
    → AreDigits (e ∷ es)
    → length ds < 22
    → length es < 22
    → written 0 (d ∷ ds) < 2 ^ 63
    → written 0 (e ∷ es) < 2 ^ 63
    → pos_part (meaning op (written 0 (d ∷ ds)) (written 0 (e ∷ es)))
        + neg_part (meaning op (written 0 (d ∷ ds)) (written 0 (e ∷ es)))
      < 2 ^ 63
    → calc_parse_display (
        calc_press (type_digits (calc_press (type_digits s (d ∷ ds)) (op ∷ [])) (e ∷ es)) (61 ∷ []))
      ≡ meaning op (written 0 (d ∷ ds)) (written 0 (e ∷ es))
calc_press-calculates op d e ds es s is fresh idle small small' room room' fits fits' bound =
    let first = type_number d ds s fresh small room in
    let idle' : (type_digits s (d ∷ ds)).op ≡ 0 = ap (λ (u : Calc). u.op) first.frame ∙ idle in
    let pressed = press_operator-first (type_digits s (d ∷ ds)) op idle' is in
    let second =
      type_number e es (calc_press (type_digits s (d ∷ ds)) (op ∷ []))
        (ap (λ (u : Calc). u.fresh) pressed) small' room' in
    let op_kept = ap (λ (u : Calc). u.op) second.frame ∙ ap (λ (u : Calc). u.op) pressed in
    let acc_kept =
      ap (λ (u : Calc). u.acc) second.frame
      ∙ ap (λ (u : Calc). u.acc) pressed
      ∙ shown_number first in
    let busy : (op == 0) ≡ false = ground (arith, is) in
    let value = calc_apply-meaning op (written 0 (d ∷ ds)) (written 0 (e ∷ es)) is in
    ap parse_text (
      press_equals-shows (type_digits (calc_press (type_digits s (d ∷ ds)) (op ∷ [])) (e ∷ es))
        (rw op_kept busy))
    ∙ ap (λ r. parse_text (number_text r)) (rw (op_kept, acc_kept, shown_number second) value)
    ∙ parse_text-number_text (meaning op (written 0 (d ∷ ds)) (written 0 (e ∷ es))) bound
