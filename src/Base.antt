-- ===== src/Base.antt =====
-- The names that the whole development shares: library names passed on, Boolean tests on native
-- numbers, and the children for lists, signed numbers, texts, dictionaries and raising methods.
mod Tests
mod Int
mod Lists
mod Texts
pub mod Dict
pub mod Context
mod Raising
pub use Tests.*
unfoldable pub use Int.*
pub use Lists.*
unfoldable pub use Texts.*
pub use Raising.*
pub use Prim.Native.Nat.{ℕ, zero, suc, ◌+◌, ◌-◌, ◌*◌, ◌/◌, ◌%◌, ◌≤◌, ◌<◌}
pub use Prim.Native.String.{String}
pub use mathlib.Core.Path.{◌≡◌, refl, sym, ap, subst, ◌∙◌}
pub use mathlib.Core.Logic.{◌≢◌, ◌↔◌, ◌⊎◌, inl, inr}
pub use mathlib.Core.Bool.{Bool, true, false, ◌&&◌, ◌||◌, not}
pub use mathlib.Core.Option.{Option, none, some}
pub use mathlib.Core.List.{List, [], ◌∷◌, ◌++◌, map}
pub use native.Mathlib.Omega.{arith}
