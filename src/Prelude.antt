-- ===== src/Prelude.antt =====
-- The names that the other modules share: the libraries', passed on, and those of three children:
-- Boolean tests, texts as code points, and tables of rows that are found by a key.
mod Tests
mod Lists
mod Codes
mod Int
pub mod Table
unfoldable pub use Tests.*
unfoldable pub use Lists.*
unfoldable pub use Codes.*
pub use Int.*
pub use Prim.Native.Nat.{ℕ, zero, suc, ◌+◌, ◌-◌, ◌*◌, ◌/◌, ◌%◌, ◌^◌, ◌≤◌, ◌<◌, min, max}
pub use mathlib.Core.Path.{◌≡◌, refl, sym, ap, ◌∙◌}
pub use mathlib.Core.Logic.{◌≢◌, ◌↔◌, ◌⊎◌, inl, inr}
pub use mathlib.Core.Bool.{Bool, true, false, ◌&&◌, ◌||◌, not}
pub use mathlib.Core.Option.{Option, none, some}
pub use mathlib.Core.List.{List, [], ◌∷◌, ◌++◌, map}
pub use native.Mathlib.Omega.{arith}
