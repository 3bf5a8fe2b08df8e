-- ===== src/Prelude.antt =====
-- The names that the other modules share: the libraries', passed on, and those of the children.
pub mod Tests
pub mod Lists
pub mod CText
pub mod Decimal
pub mod Printf
pub use Tests.*
pub use Lists.*
pub use CText.*
unfoldable pub use Decimal.{decimal, value_from, ten_to}
pub use Decimal.{
  is_digit, IsDigits, value_from-decimal, decimal-IsDigits, decimal-cons, length-decimal,
  IsDigits-IsText,
}
unfoldable pub use Printf.{sprintf}
pub use Printf.{Arg, text, num}
pub use Prim.Native.Nat.{ℕ, zero, suc, ◌+◌, ◌-◌, ◌*◌, ◌/◌, ◌%◌, ◌^◌, ◌≤◌, ◌<◌}
pub use mathlib.Core.Path.{◌≡◌, refl, sym, ap, ◌∙◌}
pub use mathlib.Core.Logic.{◌≢◌, ◌↔◌, ◌⊎◌, inl, inr}
pub use mathlib.Core.Bool.{Bool, true, false, ◌&&◌, ◌||◌, not}
pub use mathlib.Core.Option.{Option, none, some}
pub use mathlib.Core.List.{List, [], ◌∷◌, ◌++◌, map, append_assoc, append-nil}
pub use native.Mathlib.Omega.{arith}
