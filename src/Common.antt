-- ===== src/Common.antt =====
-- The names that all parts share: the libraries' names passed on, and those of the children.
mod Tests
mod Lists
mod Int
mod Maps
pub mod Chan
pub mod Float
pub mod Http
pub mod Decimal
pub mod Text
mod Examples
pub use Tests.*
pub use Lists.*
pub use Int.*
pub use Maps.{
  Assoc, values, Absent, IsMap, lookup-Absent, Absent-of_lookup, lookup-insert, lookup-delete,
  insert-IsMap, delete-IsMap, Elem-values, lookup-of_Elem, Absent-ne,
}
unfoldable pub use Maps.{lookup, insert, delete}
pub use Prim.Native.Nat.{ℕ, zero, suc, ◌+◌, ◌-◌, ◌*◌, ◌/◌, ◌%◌, ◌^◌, ◌≤◌, ◌<◌, min}
pub use Prim.Native.String.{String}
pub use mathlib.Core.Path.{◌≡◌, refl, sym, ap, ◌∙◌, subst}
pub use mathlib.Core.Logic.{◌≢◌, ◌↔◌, ◌⊎◌, inl, inr}
pub use mathlib.Core.Bool.{Bool, true, false, not, ◌&&◌, ◌||◌}
pub use mathlib.Core.Option.{Option, none, some, some-injective}
pub use mathlib.Core.List.{List, [], ◌∷◌, ◌++◌, map}
pub use native.Mathlib.Omega.{arith}
pub use text.Mathlib.Text.{◌==◌ as str_eq}
pub use text.Mathlib.TextEquality.{eq_iff}
pub use text.Mathlib.TextPositions.{eq_refl}
