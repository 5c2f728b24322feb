-- ===== src/Prelude.antt =====
-- The names that the development shares: those of the libraries, passed on, and the Boolean tests,
-- lists, numbers and byte strings of its children.
mod Tests
mod Lists
mod Sorting
mod Text
mod Int
mod Decimal
pub use Tests.*
pub use Lists.*
unfoldable pub use Sorting.*
unfoldable pub use Text.*
unfoldable pub use Decimal.*
unfoldable pub use Int.*
pub use Prim.Native.Nat.{ℕ, zero, suc, ◌+◌, ◌-◌, ◌*◌, ◌/◌, ◌%◌, ◌^◌, ◌≤◌, ◌<◌}
pub use Prim.Native.String.{String}
pub use mathlib.Core.Path.{◌≡◌, refl, sym, ap, ◌∙◌}
pub use mathlib.Core.Logic.{◌≢◌, ◌↔◌, ◌⊎◌, inl, inr}
pub use mathlib.Core.Bool.{Bool, true, false, not, ◌&&◌, ◌||◌}
pub use mathlib.Core.Option.{Option, none, some}
pub use mathlib.Core.List.{List, [], ◌∷◌, ◌++◌}
pub use native.Mathlib.Omega.{arith}
