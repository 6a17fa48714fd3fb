-- ===== src/Gui/Calculator.antt =====
-- The desk calculator in src/kernel/gui.cpp. Texts are without the final NUL. An `int64_t` is an
-- integer: what leaves the 64 bits is undefined in the program.
pub mod Display
pub mod Typing
pub mod Sums
mod Tests
use paradox_os.Base.{
  Bool, List, [], false, get_or, if◌then◌else◌, leb, length, ltb, not, set, suc, take, true, zero,
  ℕ, ◌%◌, ◌&&◌, ◌*◌, ◌++◌, ◌+◌, ◌-◌, ◌/◌, ◌==◌, ◌||◌, ◌∷◌,
}
use paradox_os.Base.Int.{ℤ, pos, negsuc, pos_part, neg_part, sub_ℕ, ◌+ℤ◌, ◌-ℤ◌, ◌*ℤ◌, ◌/ℤ◌}

pub record Calc : Type 0 where
  pub display : List ℕ
  pub acc : ℤ
  pub op : ℕ
  pub fresh : Bool

-- The digits go to `tmp`, the last one first, and are read from its end.
unfoldable pub digits : ℕ → ℕ → List ℕ → List ℕ
digits zero v tmp = tmp
digits (suc n) v tmp =
    let rest = digits n (v / 10) ((48 + v % 10) ∷ tmp) in if v == 0 then tmp else rest

-- The numbers of 64 bits have 20 digits at most.
unfoldable pub magnitude : ℕ → List ℕ
magnitude v = if v == 0 then 48 ∷ [] else digits 20 v []

-- What is written into the 24 characters of the display.
unfoldable pub number_text : ℤ → List ℕ
number_text (pos v) = take 23 (magnitude v)
number_text (negsuc v) = 45 ∷ take 22 (magnitude (suc v))

abbrev pub calc_set_display_from_int : Calc → ℤ → Calc
calc_set_display_from_int s v = record s { display = number_text v }

unfoldable pub parse_digits : ℕ → List ℕ → ℕ
parse_digits v [] = v
parse_digits v (c ∷ cs) =
    let rest = parse_digits (v * 10 + (c - 48)) cs in if leb 48 c && leb c 57 then rest else v

unfoldable pub parse_text : List ℕ → ℤ
parse_text [] = pos 0
parse_text (c ∷ cs) = if c == 45 then sub_ℕ 0 (parse_digits 0 cs) else pos (parse_digits 0 (c ∷ cs))

-- The number on the display, in `int64_t`: the program is undefined where it has more than 63 bits, and
-- gives this number where it has not.
abbrev pub calc_parse_display : Calc → ℤ
calc_parse_display s = parse_text s.display

-- The switch on the operator, with 0 for a quotient by 0.
unfoldable pub calc_apply : ℕ → ℤ → ℤ → ℤ
calc_apply op a b =
    if op == 43
    then a +ℤ b
    else if op == 45
    then a -ℤ b
    else if op == 42
    then a *ℤ b
    else if op == 47
    then (if (pos_part b == 0) && (neg_part b == 0) then pos 0 else a /ℤ b)
    else a

unfoldable pub press_digit : Calc → ℕ → Calc
press_digit s c =
    if s.fresh
    then record s { display = c ∷ []; fresh = false }
    else if ltb (length s.display + 1) 23
    then (if (length s.display == 1) && (get_or s.display 0 0 == 48)
        then record s { display = set s.display 0 c }
        else record s { display = s.display ++ (c ∷ []) })
    else s

unfoldable pub press_operator : Calc → ℕ → Calc
press_operator s c =
    let t : Calc =
      if not (s.op == 0) && not s.fresh
      then (let r = calc_apply s.op s.acc (calc_parse_display s) in
          calc_set_display_from_int (record s { acc = r }) r)
      else record s { acc = calc_parse_display s } in
    record t { op = c; fresh = true }

unfoldable pub press_equals : Calc → Calc
press_equals s =
    if not (s.op == 0)
    then (let r = calc_apply s.op s.acc (calc_parse_display s) in
        record s { display = number_text r; acc = r; op = 0; fresh = true })
    else s

abbrev pub press_clear : Calc → Calc
press_clear s = record s { display = 48 ∷ []; acc = pos 0; op = 0; fresh = true }

abbrev pub is_operator : ℕ → Bool
is_operator c = (c == 43) || ((c == 45) || ((c == 42) || (c == 47)))

unfoldable pub calc_press : Calc → List ℕ → Calc
calc_press s label =
    let c = get_or label 0 0 in
    if (leb 48 c && leb c 57) && (get_or label 1 0 == 0)
    then press_digit s c
    else if is_operator c
    then press_operator s c
    else if c == 61
    then press_equals s
    else if c == 67
    then press_clear s
    else s
