-- ===== src/Common.antt =====
-- The names that every module shares: the libraries', passed on, and those of the children.
mod Tests
mod Equality
mod Int
mod Lists
mod Members
mod Count
pub mod Result
pub use Tests.*
pub use Equality.{Eq, ◌==◌, text_eq_iff, text, ℕ_eq, eq_self, eq_of_test, ne_test, ne_of_test}
unfoldable pub use Equality.{text_eq}
pub use Int.*
pub use Lists.*
pub use Members.*
pub use Count.*
pub use Prim.Native.Nat.{ℕ, zero, suc, ◌+◌, ◌-◌, ◌*◌, ◌≤◌, ◌<◌}
pub use mathlib.Core.Path.{◌≡◌, refl, sym, ap, ◌∙◌}
pub use mathlib.Core.Logic.{◌≢◌, ◌↔◌, ◌⊎◌, inl, inr}
pub use mathlib.Core.Bool.{Bool, true, false, not, ◌&&◌, ◌||◌}
pub use mathlib.Core.Option.{Option, none, some}
pub use mathlib.Core.List.{cons-ne-nil, List, [], ◌∷◌, ◌++◌, map, reverse, append-nil, append_assoc}
pub use native.Mathlib.Omega.{arith}
