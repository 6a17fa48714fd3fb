-- ===== src/Gui/Calculator/Typing.antt =====
-- Typing a number.
use paradox_os.Base.{
  All, Bool-cases, List, [], ap, arith, false, get_or, if◌then◌else◌, inl, inr, leb, length,
  length-append, ltb, lt→ltb, refl, set, true, ℕ, ◌&&◌, ◌*◌, ◌++◌, ◌+◌, ◌-◌, ◌<◌, ◌==◌, ◌∙◌, ◌∷◌,
  ◌≡◌, ◌≤◌,
}
use paradox_os.Base.Int.{pos}
use paradox_os.Gui.Calculator.{Calc, parse_digits, press_digit, calc_press, calc_parse_display}
use paradox_os.Gui.Calculator.Display.{IsDigits, parse_text-digits}

abbrev pub digit_label : ℕ → List ℕ
digit_label d = (48 + d) ∷ []

-- The buttons of several digits, one after the other
abbrev pub type_digits : Calc → List ℕ → Calc
type_digits s [] = s
type_digits s (d ∷ ds) = type_digits (calc_press s (digit_label d)) ds

-- The number that is written with some digits, behind those of `v`
abbrev pub written : ℕ → List ℕ → ℕ
written v [] = v
written v (d ∷ ds) = written (v * 10 + d) ds

abbrev pub AreDigits : List ℕ → Type 0
AreDigits ds = All (λ d. d < 10) ds

calc_press-digit :
    (s : Calc) (d : ℕ) → d < 10 → calc_press s (digit_label d) ≡ press_digit s (48 + d)
unfolding calc_press
calc_press-digit s d h =
    let digit : ((leb 48 (48 + d) && leb (48 + d) 57) && (0 == 0)) ≡ true = ground arith in
    rw digit refl

-- The display while a number is typed.
pub record Shows (v : ℕ) (s t : Calc) : Type 0 where
  chars : IsDigits t.display
  value : parse_digits 0 t.display ≡ v
  pub frame : t ≡ record s { display = t.display; fresh = false }

IsDigits-append : (xs : List ℕ) (c : ℕ) → IsDigits xs → 48 ≤ c → c ≤ 57 → IsDigits (xs ++ (c ∷ []))
IsDigits-append [] c h low high = ((low, high), tt)
IsDigits-append (x ∷ xs) c h low high = (h.0, IsDigits-append xs c h.1 low high)

parse_digits-append :
    (v : ℕ) (xs : List ℕ) (d : ℕ)
    → IsDigits xs
    → d < 10
    → parse_digits v (xs ++ ((48 + d) ∷ [])) ≡ parse_digits v xs * 10 + d
unfolding parse_digits
parse_digits-append v [] d h small =
    let digit : (leb 48 (48 + d) && leb (48 + d) 57) ≡ true = ground arith in rw digit (omega arith)
parse_digits-append v (x ∷ xs) d h small =
    let digit : (leb 48 x && leb x 57) ≡ true = ground (arith, h.0) in
    rw digit (parse_digits-append (v * 10 + (x - 48)) xs d h.1 small)

zero_shown : (xs : List ℕ) → ((length xs == 1) && (get_or xs 0 0 == 48)) ≡ true → xs ≡ 48 ∷ []
zero_shown [] h = absurd (ground (arith, h))
zero_shown (x ∷ []) h = let e : x ≡ 48 = ground (arith, h) in rw e refl
zero_shown (x ∷ y ∷ xs) h = absurd (ground (arith, h))

-- The display after one more digit
abbrev next_display : List ℕ → ℕ → List ℕ
next_display xs c = if (length xs == 1) && (get_or xs 0 0 == 48) then set xs 0 c else xs ++ (c ∷ [])

press_digit_more :
    (t : Calc) (c : ℕ)
    → t.fresh ≡ false
    → length t.display + 1 < 23
    → press_digit t c ≡ record t { display = next_display t.display c }
unfolding press_digit
press_digit_more t c old room =
    let more : ltb (length t.display + 1) 23 ≡ true = lt→ltb _ _ room in
    elim (Bool-cases ((length t.display == 1) && (get_or t.display 0 0 == 48))) [
      | inl e ↦ simp (old, more, e) refl
      | inr e ↦ simp (old, more, e) refl
    ]

next_display_lem :
    (xs : List ℕ) (d : ℕ)
    → d < 10
    → IsDigits xs
    → IsDigits (next_display xs (48 + d))
      × (parse_digits 0 (next_display xs (48 + d)) ≡ parse_digits 0 xs * 10 + d)
      × (length (next_display xs (48 + d)) ≤ length xs + 1)
unfolding parse_digits
next_display_lem xs d small all = elim (Bool-cases ((length xs == 1) && (get_or xs 0 0 == 48))) [
  | inl e ↦
      let zero_only = zero_shown xs e in
      let digit : (leb 48 (48 + d) && leb (48 + d) 57) ≡ true = ground arith in
      rw zero_only (((omega arith, omega arith), tt), rw digit (omega arith), omega arith)
  | inr e ↦ rw e (
    IsDigits-append xs (48 + d) all (omega arith) (omega arith),
    parse_digits-append 0 xs d all small,
    omega (arith, length-append xs ((48 + d) ∷ [])),
  )
]

Shows-more :
    (v d : ℕ) (s t : Calc)
    → d < 10
    → length t.display + 1 < 23
    → Shows v s t
    → Shows (v * 10 + d) s (calc_press t (digit_label d))
      × (length (calc_press t (digit_label d)).display ≤ length t.display + 1)
Shows-more v d s t small room now =
    let next = next_display_lem t.display d small now.chars in
    let old : t.fresh ≡ false = ap (λ (u : Calc). u.fresh) now.frame in
    rw (calc_press-digit t d small, press_digit_more t (48 + d) old room)
      (
        record {
          chars = next.0;
          value = next.1 ∙ ap (λ n. n * 10 + d) now.value;
          frame =
              ap {A = Calc} {B = Calc} (λ u. record u { display = next_display t.display (48 + d) })
                now.frame;
        },
        next.2,
      )

Shows-type :
    (ds : List ℕ) (v : ℕ) (s t : Calc)
    → AreDigits ds
    → length t.display + length ds < 23
    → Shows v s t
    → Shows (written v ds) s (type_digits t ds)
Shows-type [] v s t small room now = now
Shows-type (d ∷ ds) v s t small room now =
    let next = Shows-more v d s t small.0 (omega (arith, room)) now in
    Shows-type ds (v * 10 + d) s (calc_press t (digit_label d)) small.1
      (omega (arith, room, next.1)) next.0

-- The first digit of a number clears the display.
pub type_number :
    (d : ℕ) (ds : List ℕ) (s : Calc)
    → s.fresh ≡ true
    → AreDigits (d ∷ ds)
    → length ds < 22
    → Shows (written 0 (d ∷ ds)) s (type_digits s (d ∷ ds))
unfolding press_digit parse_digits
type_number d ds s fresh small room =
    let digit : (leb 48 (48 + d) && leb (48 + d) 57) ≡ true = ground (arith, small.0) in
    let first : calc_press s (digit_label d) ≡ record s { display = (48 + d) ∷ []; fresh = false } =
      calc_press-digit s d small.0 ∙ simp fresh refl in
    Shows-type ds (0 * 10 + d) s (calc_press s (digit_label d)) small.1
      (rw first (omega (arith, room)))
      (rw first (record {
        chars = ((omega arith, omega (arith, small.0)), tt);
        value = rw digit (omega arith);
        frame = refl;
      }))

pub shown_number : {v : ℕ} {s t : Calc} → Shows v s t → calc_parse_display t ≡ pos v
shown_number {v} {s} {t} now = parse_text-digits t.display now.chars ∙ ap pos now.value
