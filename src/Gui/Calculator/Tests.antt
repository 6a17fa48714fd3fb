-- ===== src/Gui/Calculator/Tests.antt =====
-- Concrete calculations.
use paradox_os.Base.{[], arith, refl, true, ◌∷◌, ◌≡◌}
use paradox_os.Base.Int.{pos, negsuc}
use paradox_os.Gui.Calculator.{Calc, number_text, parse_text, calc_press, calc_parse_display}
use paradox_os.Gui.Calculator.Display.{FitsDisplay, parse_text-number_text, calc_press-FitsDisplay}
use paradox_os.Gui.Calculator.Typing.{type_digits, written}
use paradox_os.Gui.Calculator.Sums.{meaning, calc_press-calculates}

-- What the program starts with
abbrev start : Calc
start = record { display = 48 ∷ []; acc = pos 0; op = 0; fresh = true }

start-FitsDisplay : FitsDisplay start
start-FitsDisplay = record { some_text = omega arith; room = omega arith }

reads_back : parse_text (number_text (negsuc 41)) ≡ negsuc 41
reads_back = parse_text-number_text (negsuc 41) (omega arith)

press-FitsDisplay : FitsDisplay (calc_press start (55 ∷ []))
press-FitsDisplay = calc_press-FitsDisplay start (55 ∷ []) start-FitsDisplay

-- 12 - 30
calc_press-calculates_example :
    calc_parse_display (
      calc_press
        (type_digits (calc_press (type_digits start (1 ∷ 2 ∷ [])) (45 ∷ [])) (3 ∷ 0 ∷ []))
        (61 ∷ []))
    ≡ meaning 45 (written 0 (1 ∷ 2 ∷ [])) (written 0 (3 ∷ 0 ∷ []))
calc_press-calculates_example =
    calc_press-calculates 45 1 3 (2 ∷ []) (0 ∷ []) start refl refl refl
      (omega arith, (omega arith, tt)) (omega arith, (omega arith, tt)) (omega arith) (omega arith)
      (omega arith) (omega arith) (omega arith)
