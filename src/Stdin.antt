-- ===== src/Stdin.antt =====
-- The line buffer of standard input, src/kernel/stdin.cpp. `line` holds the first `g_len` characters
-- of `g_line`; `echo` collects what goes to `vga_putchar`, oldest first.
pub mod Edit
mod Tests
use paradox_os.Base.{
  Bool, List, Option, [], false, if◌then◌else◌, length, ltb, min, none, some, take, true, ℕ, ◌++◌,
  ◌+◌, ◌-◌, ◌==◌, ◌||◌, ◌∷◌,
}

abbrev pub line_cap : ℕ
line_cap = 256

pub record Stdin : Type 0 where
  pub line : List ℕ
  pub ready : Bool
  pub echo : List ℕ

abbrev pub g_len : Stdin → ℕ
g_len s = length s.line

pub stdin_init : Stdin → Stdin
stdin_init s = record s { line = []; ready = false }

abbrev pub backspace : ℕ
backspace = 8

abbrev pub newline : ℕ
newline = 10

abbrev pub is_enter : ℕ → Bool
is_enter c = (c == 10) || (c == 13)

pub stdin_push : Stdin → ℕ → Stdin
stdin_push s c =
    if s.ready
    then s
    else if c == backspace
    then (if ltb 0 (g_len s)
        then record s {
          line = take (g_len s - 1) s.line;
          echo = s.echo ++ (backspace ∷ (b' ' ∷ (backspace ∷ [])));
        }
        else s)
    else if is_enter c
    then record s {
      line = if ltb (g_len s) line_cap then s.line ++ (newline ∷ []) else s.line;
      ready = true;
      echo = s.echo ++ (newline ∷ []);
    }
    else if ltb (g_len s + 1) line_cap
    then record s { line = s.line ++ (c ∷ []); echo = s.echo ++ (c ∷ []) }
    else s

-- What is copied to `out`, whose length is the result. While no line is ready the program waits for
-- the keyboard, so there is no result: `none`.
pub stdin_read_line : Stdin → ℕ → Option (List ℕ × Stdin)
stdin_read_line s cap =
    if s.ready
    then some (take (min (g_len s) cap) s.line, record s { line = []; ready = false })
    else none

-- The keys of several interrupts in a row.
unfoldable pub push_all : Stdin → List ℕ → Stdin
push_all s [] = s
push_all s (c ∷ cs) = push_all (stdin_push s c) cs
