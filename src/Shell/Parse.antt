-- ===== src/Shell/Parse.antt =====
-- How a command line is taken apart.
use paradox_os.Base.{
  All, List, [], ap, arith, false, length, refl, replicate, suc, zero, ℕ, ◌++◌, ◌<◌, ◌==◌, ◌∷◌, ◌≡◌,
}
use paradox_os.Shell.{skip_spaces, until_space, parse_command}

abbrev NoSpace : ℕ → Type 0
NoSpace c = (c == 32) ≡ false

-- A text that is empty or begins with another character than a space.
abbrev pub Tight : List ℕ → Type 0
Tight [] = Unit
Tight (c ∷ p) = NoSpace c

skip_spaces-replicate : (n : ℕ) (p : List ℕ) → Tight p → skip_spaces (replicate n 32 ++ p) ≡ p
unfolding skip_spaces
skip_spaces-replicate zero [] h = refl
skip_spaces-replicate zero (c ∷ p) h = rw h refl
skip_spaces-replicate (suc n) p h = skip_spaces-replicate n p h

until_space-append :
    (name rest : List ℕ) → All NoSpace name → until_space (name ++ (32 ∷ rest)) ≡ (name, 32 ∷ rest)
unfolding until_space
until_space-append [] rest h = refl
until_space-append (c ∷ name) rest h = rw (h.0, until_space-append name rest h.1) refl

Tight-append : (name p : List ℕ) → 0 < length name → All NoSpace name → Tight (name ++ p)
Tight-append [] p some_name h = absurd (omega arith)
Tight-append (c ∷ name) p some_name h = h.0

-- A line of a name and arguments, with any spaces before the name and one at least behind it, is taken
-- apart into the name and the arguments; the spaces within the arguments stay.
pub parse_command_lem :
    (before between : ℕ) (name args : List ℕ)
    → 0 < length name
    → All NoSpace name
    → Tight args
    → parse_command (replicate before 32 ++ (name ++ (32 ∷ (replicate between 32 ++ args))))
      ≡ (name, args)
unfolding parse_command skip_spaces
parse_command_lem before between name args some_name plain tight =
    rw
      (
        skip_spaces-replicate before (name ++ (32 ∷ (replicate between 32 ++ args)))
            (Tight-append name (32 ∷ (replicate between 32 ++ args)) some_name plain),
        until_space-append name (replicate between 32 ++ args) plain,
      )
      (ap (λ a. (name, a)) (skip_spaces-replicate (suc between) args tight))
