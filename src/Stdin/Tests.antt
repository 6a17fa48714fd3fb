-- ===== src/Stdin/Tests.antt =====
-- Concrete runs of the line buffer.
use paradox_os.Base.{List, [], arith, false, none, refl, some, ℕ, ◌++◌, ◌∷◌, ◌≡◌}
use paradox_os.Stdin.{Stdin, newline, stdin_push, stdin_read_line, push_all}
use paradox_os.Stdin.Edit.{IsValid, edited, read-typed}

abbrev empty : Stdin
empty = record { line = []; ready = false; echo = [] }

-- a, b, a backspace and c
abbrev keys : List ℕ
keys = 97 ∷ 98 ∷ 8 ∷ 99 ∷ []

typed :
    stdin_read_line (stdin_push (push_all empty keys) newline) 256
    ≡ some (
      97 ∷ 99 ∷ 10 ∷ [],
      record { line = []; ready = false; echo = (push_all empty keys).echo ++ (newline ∷ []) },
    )
unfolding stdin_push stdin_read_line push_all
typed = refl

not_ready : stdin_read_line (push_all empty keys) 256 ≡ none
unfolding stdin_push stdin_read_line push_all
not_ready = refl

read-typed_example :
    stdin_read_line (stdin_push (push_all empty keys) newline) 256
    ≡ some (
      edited [] keys ++ (newline ∷ []),
      record { line = []; ready = false; echo = (push_all empty keys).echo ++ (newline ∷ []) },
    )
read-typed_example =
    read-typed empty keys 256 refl refl (refl, (refl, (refl, (refl, tt)))) (omega arith)
      (omega arith)

empty-IsValid : IsValid empty
empty-IsValid = record { fits = omega arith; room = λ _. omega arith }
