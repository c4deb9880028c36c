-- ===== src/Base.antt =====
-- The names that the other modules share: the libraries', passed on, and those of the children
-- on tests, lists, results and byte slices.
mod Tests
mod Lists
mod Results
mod Order
pub mod Decimal
pub mod Sort
pub mod FilePath
pub mod Space
pub mod Search
pub mod Int
pub mod Trace
pub use Tests.*
pub use Lists.*
pub use Results.*
unfoldable pub use Order.*
pub use Prim.Native.Nat.{ℕ, zero, suc, ◌+◌, ◌-◌, ◌*◌, ◌/◌, ◌%◌, ◌^◌, ◌≤◌, ◌<◌, bit_and}
pub use mathlib.Core.Path.{◌≡◌, refl, sym, ap, ap₂, ◌∙◌}
pub use mathlib.Core.Logic.{◌≢◌, ◌↔◌, ◌⊎◌, inl, inr}
pub use mathlib.Core.Bool.{Bool, true, false, not, ◌&&◌, ◌||◌}
pub use mathlib.Core.Option.{Option, none, some}
pub use mathlib.Core.List.{List, [], ◌∷◌, ◌++◌, map, append_assoc, append-nil}
pub use native.Mathlib.Omega.{arith}
