-- ===== src/Base.antt =====
-- The names that the other modules share: library names passed on, and those of the children
-- (Boolean tests, results, machine words, texts, floats, lists). Action is used by its name.
mod Tests
mod Outcome
mod Word
mod Text
mod Float
mod Decimal
mod Lists
mod Int
mod Search
mod Frame
pub mod Action
pub use Tests.*
pub use Outcome.*
pub use Word.*
unfoldable pub use Text.*
unfoldable pub use Float.*
unfoldable pub use Decimal.*
pub use Frame.*
pub use Search.*
pub use Lists.*
pub use Int.*
pub use Prim.Native.Nat.{ℕ, zero, suc, ◌+◌, ◌-◌, ◌*◌, ◌/◌, ◌%◌, ◌^◌, ◌≤◌, ◌<◌, min, max}
pub use Prim.Native.String.{String}
pub use mathlib.Core.Path.{◌≡◌, refl, sym, ap, ◌∙◌}
pub use mathlib.Core.Logic.{◌≢◌, ◌↔◌, ◌⊎◌, inl, inr}
pub use mathlib.Core.Bool.{Bool, true, false, not, ◌&&◌, ◌||◌}
pub use mathlib.Core.Option.{Option, none, some}
pub use mathlib.Core.List.{List, [], ◌∷◌, ◌++◌, map}
pub use native.Mathlib.Omega.{arith}
pub use text.Mathlib.TextEquality.{eq_iff}
