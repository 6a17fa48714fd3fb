-- ===== src/Base.antt =====
-- The names that the modules of the kernel share: numbers, lists, tests and bytes.
mod Tests
mod Lists
mod Loops
pub mod Bits
pub mod Int
pub mod Text
pub use Tests.*
pub use Lists.*
unfoldable pub use Loops.*
pub use Prim.Native.Nat.{ℕ, zero, suc, ◌+◌, ◌-◌, ◌*◌, ◌/◌, ◌%◌, ◌^◌, ◌≤◌, ◌<◌, min}
pub use Prim.Native.Nat.{bit_and, bit_or, bit_xor}
pub use mathlib.Core.Path.{◌≡◌, refl, sym, ap, ap₂, ◌∙◌, subst}
pub use mathlib.Core.Logic.{◌≢◌, ◌↔◌, ◌⊎◌, inl, inr}
pub use mathlib.Core.Bool.{Bool, true, false, not, ◌&&◌, ◌||◌}
pub use mathlib.Core.Option.{Option, none, some}
pub use mathlib.Core.List.{List, [], ◌∷◌, ◌++◌, map, reverse}
pub use native.Mathlib.Omega.{arith}
