-- ===== src/Base.antt =====
-- The names that the other modules share: the libraries' names, passed on, and small helpers on
-- tests, lists and Python dictionaries.
mod Tests
mod Lists
mod Dictionary
mod Integers
mod Texts
unfoldable pub use Tests.*
unfoldable pub use Lists.*
unfoldable pub use Integers.*
unfoldable pub use Texts.*
unfoldable pub use Dictionary.*
pub use Prim.Native.Nat.{ℕ, zero, suc, ◌+◌, ◌-◌, ◌*◌, ◌≤◌, ◌<◌, min, max}
pub use Prim.Native.String.{String}
pub use mathlib.Core.Path.{◌≡◌, refl, sym, ap, ◌∙◌, subst}
pub use mathlib.Core.Logic.{◌≢◌, ◌⊎◌, inl, inr, ◌↔◌}
pub use mathlib.Core.Bool.{Bool, true, false, not, ◌&&◌, ◌||◌}
pub use mathlib.Core.Option.{Option, none, some}
pub use mathlib.Core.List.{List, [], ◌∷◌, ◌++◌, map}
pub use native.Mathlib.Omega.{arith}
pub use text.Mathlib.Text.{◌==◌ as str_eq}
pub use text.Mathlib.TextEquality.{eq_iff}
