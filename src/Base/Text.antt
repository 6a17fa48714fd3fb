-- ===== src/Base/Text.antt =====
-- Texts as the codes of their characters.
use Prim.Native.Nat.{ℕ}
use Prim.Native.Char.{code}
use Prim.Native.String.{String}
use mathlib.Core.List.{List, [], ◌∷◌}

abbrev pub codes : String → List ℕ
codes String.[] = []
codes (String.◌∷◌ c s) = code c ∷ codes s
