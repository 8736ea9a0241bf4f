-- ===== src/Base.antt =====
-- The names that every component shares: the libraries', passed on, and those of the children
-- (tests and conditionals, numerals and
-- identifiers read back, result values with `do`, text, and tables of rows).
mod Tests
mod Lists
pub mod Text
pub mod Json
pub mod Numerals
pub mod Result
pub mod Action
pub mod Post
pub mod Table
pub use Tests.*
pub use Lists.*
pub use Prim.Native.Nat.{ℕ, zero, suc, ◌+◌, ◌-◌, ◌*◌, ◌/◌, ◌%◌, ◌≤◌, ◌<◌, max}
pub use mathlib.Core.Path.{◌≡◌, refl, sym, ap, subst, ◌∙◌}
pub use mathlib.Core.Logic.{◌≢◌, ◌↔◌, ◌⊎◌, inl, inr}
pub use mathlib.Core.Bool.{Bool, true, false, not, ◌&&◌, ◌||◌}
pub use mathlib.Core.Option.{Option, none, some}
pub use mathlib.Core.List.{List, [], ◌∷◌, ◌++◌, map}
pub use native.Mathlib.Omega.{arith}
