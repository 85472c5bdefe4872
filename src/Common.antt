-- ===== src/Common.antt =====
-- The names that the other modules share: the libraries', passed on, and those of the children.
-- A JavaScript object used as a map is a `Dict` (Common/Dicts), an array a `List` (Common/Lists).
mod Tests
mod Lists
mod Items
mod Dicts
mod Words
mod Keys
mod Int
pub use Tests.*
pub use Lists.*
pub use Items.*
pub use Dicts.*
unfoldable pub use Keys.{values, contains}
unfoldable pub use Dicts.{lookup, insert, delete, keys}
pub use Words.*
pub use Keys.*
pub use Int.*
unfoldable pub use Words.{compare_words}
pub use Prim.Native.Nat.{ℕ, zero, suc, ◌+◌, ◌-◌, ◌*◌, ◌/◌, ◌%◌, ◌^◌, ◌≤◌, ◌<◌, min, max}
pub use Prim.Native.String.{String}
pub use mathlib.Core.Path.{◌≡◌, refl, sym, ap, subst, ◌∙◌}
pub use mathlib.Core.Logic.{◌≢◌, ◌↔◌, ◌⊎◌, inl, inr}
pub use mathlib.Core.Bool.{Bool, true, false, not, ◌&&◌, ◌||◌}
pub use mathlib.Core.Option.{Option, none, some}
pub use mathlib.Core.List.{List, [], ◌∷◌, ◌++◌, map}
pub use native.Mathlib.Omega.{arith}
pub use text.Mathlib.Text.{◌==◌ as str_eq}
pub use text.Mathlib.TextEquality.{eq_iff}
