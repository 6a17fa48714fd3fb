-- ===== src/Gui/Calculator/Display.antt =====
-- The display shows the number, and has room for it.
use paradox_os.Base.{
  All, Bool-cases, List, [], ap, arith, false, get_or, inl, inr, leb, length, length-append,
  length-set, length-take, ltb, ltb→lt, not, refl, suc, take, true, zero, ℕ, ◌%◌, ◌&&◌, ◌*◌, ◌+◌,
  ◌-◌, ◌/◌, ◌<◌, ◌==◌, ◌^◌, ◌∙◌, ◌∷◌, ◌≡◌, ◌≤◌,
}
use paradox_os.Base.Int.{ℤ, pos, negsuc, pos_part, neg_part}
use paradox_os.Gui.Calculator.{
  digits, magnitude, parse_digits, parse_text, number_text, Calc, press_digit, press_operator,
  press_equals, calc_press, calc_apply, is_operator, calc_parse_display,
}

unfoldable ten_to : ℕ → ℕ
ten_to zero = 1
ten_to (suc n) = 10 * ten_to n

parse_digits-digits :
    (n v : ℕ) (tmp : List ℕ) → v < ten_to n → parse_digits 0 (digits n v tmp) ≡ parse_digits v tmp
unfolding parse_digits digits ten_to
parse_digits-digits zero v tmp h = let none_left : v ≡ 0 = omega arith in rw none_left refl
parse_digits-digits (suc n) v tmp h = elim (Bool-cases (v == 0)) [
  | inl e ↦ let none_left : v ≡ 0 = ground arith in rw none_left refl
  | inr e ↦
      let whole : v / 10 * 10 + (48 + v % 10 - 48) ≡ v = omega arith in
      let digit : (leb 48 (48 + v % 10) && leb (48 + v % 10) 57) ≡ true = ground arith in
      rw e (
        parse_digits-digits n (v / 10) ((48 + v % 10) ∷ tmp) (omega arith)
        ∙ rw digit (ap (λ u. parse_digits u tmp) whole))
]

length-digits : (n v : ℕ) (tmp : List ℕ) → length (digits n v tmp) ≤ n + length tmp
unfolding digits
length-digits zero v tmp = omega arith
length-digits (suc n) v tmp = elim (Bool-cases (v == 0)) [
  | inl e ↦ rw e (omega arith)
  | inr e ↦ rw e (omega (arith, length-digits n (v / 10) ((48 + v % 10) ∷ tmp)))
]

pub length-magnitude : (v : ℕ) → length (magnitude v) ≤ 20
unfolding magnitude
length-magnitude v = elim (Bool-cases (v == 0)) [
  | inl e ↦ rw e (omega arith)
  | inr e ↦ rw e (omega (arith, length-digits 20 v []))
]

pub take-all : (n : ℕ) (xs : List ℕ) → length xs ≤ n → take n xs ≡ xs
take-all zero [] h = refl
take-all zero (x ∷ xs) h = absurd (omega arith)
take-all (suc n) [] h = refl
take-all (suc n) (x ∷ xs) h = ap (λ r. x ∷ r) (take-all n xs (omega arith))

pub parse_digits-magnitude : (v : ℕ) → v < 2 ^ 64 → parse_digits 0 (magnitude v) ≡ v
unfolding magnitude parse_digits ten_to
parse_digits-magnitude v h = elim (Bool-cases (v == 0)) [
  | inl e ↦ let none_left : v ≡ 0 = ground arith in rw (e, none_left) refl
  | inr e ↦ rw e (parse_digits-digits 20 v [] (omega arith))
]

abbrev pub IsDigits : List ℕ → Type 0
IsDigits cs = All (λ c. (48 ≤ c) × (c ≤ 57)) cs

digits-IsDigits : (n v : ℕ) (tmp : List ℕ) → IsDigits tmp → IsDigits (digits n v tmp)
unfolding digits
digits-IsDigits zero v tmp h = h
digits-IsDigits (suc n) v tmp h = elim (Bool-cases (v == 0)) [
  | inl e ↦ rw e h
  | inr e ↦ rw e (digits-IsDigits n (v / 10) ((48 + v % 10) ∷ tmp) ((omega arith, omega arith), h))
]

magnitude-IsDigits : (v : ℕ) → IsDigits (magnitude v)
unfolding magnitude
magnitude-IsDigits v = elim (Bool-cases (v == 0)) [
  | inl e ↦ rw e ((omega arith, omega arith), tt)
  | inr e ↦ rw e (digits-IsDigits 20 v [] tt)
]

pub parse_text-digits : (cs : List ℕ) → IsDigits cs → parse_text cs ≡ pos (parse_digits 0 cs)
unfolding parse_text parse_digits
parse_text-digits [] h = refl
parse_text-digits (c ∷ cs) h =
    let no_sign : (c == 45) ≡ false = ground (arith, h.0) in rw no_sign refl

-- What the calculator writes on its display for a number below 2 ^ 63 in size, it reads back as that
-- number: the display has room for it, with its sign.
pub parse_text-number_text :
    (v : ℤ) → pos_part v + neg_part v < 2 ^ 63 → parse_text (number_text v) ≡ v
unfolding number_text parse_text
parse_text-number_text (pos v) h =
    rw (take-all 23 (magnitude v) (omega (arith, length-magnitude v))) (
      parse_text-digits (magnitude v) (magnitude-IsDigits v)
      ∙ ap pos (parse_digits-magnitude v (omega arith)))
parse_text-number_text (negsuc v) h =
    rw (take-all 22 (magnitude (suc v)) (omega (arith, length-magnitude (suc v))))
      (rw (parse_digits-magnitude (suc v) (omega arith)) (ground arith))

-- The display holds a text that is not empty, with its NUL in 24 characters.
pub record FitsDisplay (s : Calc) : Type 0 where
  pub some_text : 0 < length s.display
  pub room : length s.display < 24

digits-some : (n v : ℕ) (tmp : List ℕ) → length tmp ≤ length (digits n v tmp)
unfolding digits
digits-some zero v tmp = omega arith
digits-some (suc n) v tmp = elim (Bool-cases (v == 0)) [
  | inl e ↦ rw e (omega arith)
  | inr e ↦ rw e (omega (arith, digits-some n (v / 10) ((48 + v % 10) ∷ tmp)))
]

magnitude-some : (v : ℕ) → 0 < length (magnitude v)
unfolding magnitude digits
magnitude-some v = elim (Bool-cases (v == 0)) [
  | inl e ↦ rw e (omega arith)
  | inr e ↦ rw e (omega (arith, digits-some 19 (v / 10) ((48 + v % 10) ∷ [])))
]

number_text_fits : (v : ℤ) → (0 < length (number_text v)) × (length (number_text v) < 24)
unfolding number_text
number_text_fits (pos v) =
    let size = length-take 23 (magnitude v) in
    let some_text = magnitude-some v in (omega (arith, size, some_text), omega (arith, size))
number_text_fits (negsuc v) =
    let size = length-take 22 (magnitude (suc v)) in (omega arith, omega (arith, size))

fits : (s : Calc) → (0 < length s.display) × (length s.display < 24) → FitsDisplay s
fits s h = record { some_text = h.0; room = h.1 }

press_digit-FitsDisplay : (s : Calc) (c : ℕ) → FitsDisplay s → FitsDisplay (press_digit s c)
unfolding press_digit
press_digit-FitsDisplay s c v = elim (Bool-cases s.fresh) [
  | inl e ↦ simp e (record { some_text = omega arith; room = omega arith })
  | inr e ↦ elim (Bool-cases (ltb (length s.display + 1) 23)) [
    | inr full ↦ simp (e, full) v
    | inl more ↦ elim (Bool-cases ((length s.display == 1) && (get_or s.display 0 0 == 48))) [
      | inl zero_shown ↦
          let size = length-set s.display 0 c in
          simp (e, more, zero_shown)
            (record {
              some_text = omega (arith, size, v.some_text);
              room = omega (arith, size, v.room);
            })
      | inr number ↦
          let size = length-append s.display (c ∷ []) in
          simp (e, more, number)
            (record {
              some_text = omega (arith, size);
              room = omega (arith, size, ltb→lt _ _ more);
            })
    ]
  ]
]

press_operator-FitsDisplay : (s : Calc) (c : ℕ) → FitsDisplay s → FitsDisplay (press_operator s c)
unfolding press_operator
press_operator-FitsDisplay s c v = elim (Bool-cases (not (s.op == 0) && not s.fresh)) [
  | inl e ↦ rw e (fits _ (number_text_fits (calc_apply s.op s.acc (calc_parse_display s))))
  | inr e ↦ rw e (record { some_text = v.some_text; room = v.room })
]

press_equals-FitsDisplay : (s : Calc) → FitsDisplay s → FitsDisplay (press_equals s)
unfolding press_equals
press_equals-FitsDisplay s v = elim (Bool-cases (not (s.op == 0))) [
  | inl e ↦ rw e (fits _ (number_text_fits (calc_apply s.op s.acc (calc_parse_display s))))
  | inr e ↦ rw e v
]

-- No button writes outside the display, and none leaves it empty, whatever is computed.
pub calc_press-FitsDisplay :
    (s : Calc) (label : List ℕ) → FitsDisplay s → FitsDisplay (calc_press s label)
unfolding calc_press
calc_press-FitsDisplay s label v =
    elim (Bool-cases
      ((leb 48 (get_or label 0 0) && leb (get_or label 0 0) 57) && (get_or label 1 0 == 0))) [
        | inl e ↦ rw e (press_digit-FitsDisplay s (get_or label 0 0) v)
        | inr e ↦ elim (Bool-cases (is_operator (get_or label 0 0))) [
          | inl e2 ↦ rw (e, e2) (press_operator-FitsDisplay s (get_or label 0 0) v)
          | inr e2 ↦ elim (Bool-cases (get_or label 0 0 == 61)) [
            | inl e3 ↦ rw (e, e2, e3) (press_equals-FitsDisplay s v)
            | inr e3 ↦ elim (Bool-cases (get_or label 0 0 == 67)) [
              | inl e4 ↦ rw (e, e2, e3, e4) (record { some_text = omega arith; room = omega arith })
              | inr e4 ↦ rw (e, e2, e3, e4) v
            ]
          ]
        ]
      ]
