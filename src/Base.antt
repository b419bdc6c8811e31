-- ===== src/Base.antt =====
-- The names that the modules share: the libraries' names passed on, Boolean tests on the native
-- numbers, lists of addresses, memory by field, and machine words.
mod Tests
mod Lists
mod Words
mod ReturnCodes
mod Owners
mod Options
mod Totals
pub use Tests.*
unfoldable pub use Lists.*
pub use Words.*
pub use ReturnCodes.*
pub use Owners.*
pub use Options.*
unfoldable pub use Totals.*
pub use Prim.Native.Nat.{ℕ, zero, suc, ◌+◌, ◌-◌, ◌*◌, ◌/◌, ◌%◌, ◌^◌, ◌≤◌, ◌<◌}
pub use mathlib.Core.Path.{◌≡◌, refl, sym, ap, ◌∙◌}
pub use mathlib.Core.Logic.{◌≢◌, ◌↔◌, ◌⊎◌, inl, inr}
pub use mathlib.Core.Bool.{Bool, true, false, not, ◌&&◌, ◌||◌}
pub use mathlib.Core.Option.{Option, none, some}
pub use mathlib.Core.List.{List, [], ◌∷◌, ◌++◌}
pub use native.Mathlib.Omega.{arith}
