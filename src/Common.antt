-- ===== src/Common.antt =====
-- The names that the other modules share: those of the libraries, passed on, with Boolean tests and
-- lists over the native numbers, JavaScript's Map as an association list in insertion order, and texts.
mod Tests
mod Lists
mod Dicts
mod Text
mod Integers
mod Strokes
pub use Tests.*
pub use Lists.*
pub use Dicts.*
pub use Text.*
pub use Integers.*
pub use Strokes.*
pub use Prim.Native.Nat.{ℕ, zero, suc, ◌+◌, ◌-◌, ◌*◌, ◌/◌, ◌%◌, ◌^◌, ◌≤◌, ◌<◌, min, max}
pub use Prim.Native.String.{String}
pub use mathlib.Core.Path.{◌≡◌, refl, sym, ap, ◌∙◌}
pub use mathlib.Core.Logic.{◌≢◌, ◌↔◌, ◌⊎◌, inl, inr}
pub use mathlib.Core.Bool.{Bool, true, false, not, ◌&&◌, ◌||◌}
pub use mathlib.Core.Option.{Option, none, some}
pub use mathlib.Core.List.{List, [], ◌∷◌, ◌++◌, map, foldl, reverse}
pub use native.Mathlib.Omega.{arith}
