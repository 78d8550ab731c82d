-- ===== src/Prelude.antt =====
-- The names that the models share: the libraries', passed on, and those of the children.
mod Tests
mod Lists
mod Int
pub mod Slices
pub use Tests.*
pub use Int.*
pub use Lists.{
  length, get_or, All, count_if, take, drop, length-take-drop, length-append, all_below-holds,
}
unfoldable pub use Lists.{all_below}
pub use Prim.Native.Nat.{ℕ, zero, suc, ◌+◌, ◌-◌, ◌*◌, ◌/◌, ◌%◌, ◌^◌, ◌≤◌, ◌<◌, min}
pub use Prim.Native.Nat.{bit_and, bit_or}
pub use mathlib.Core.Path.{◌≡◌, refl, sym, ap, subst, ◌∙◌}
pub use mathlib.Core.Logic.{◌≢◌, ◌↔◌, ◌⊎◌, inl, inr}
pub use mathlib.Core.Bool.{Bool, true, false, not, ◌&&◌, ◌||◌}
pub use mathlib.Core.Option.{Option, none, some}
pub use mathlib.Core.List.{List, [], ◌∷◌, ◌++◌, map}
pub use native.Mathlib.Omega.{arith}
