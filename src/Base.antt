-- ===== src/Base.antt =====
-- The names that the components share: the libraries', passed on, and those of the children.
mod Tests
mod Lists
mod Maps
mod Int
mod Sorting
mod Texts
pub use Tests.*
pub use Lists.*
pub use Int.*
pub use Maps.{
  Keyed, ◌==◌, nat_keyed, string_keyed, same_refl, Dict, has, lookup_of_has, lookup-insert,
  lookup-delete, IsUnique, insert-IsUnique, delete-IsUnique, length-delete-le, length-insert-le,
}
unfoldable pub use Maps.{lookup, insert, delete}
unfoldable pub use Texts.{strip}
pub use Texts.{strip-append}
pub use Sorting.{Any, Any-sort_by, All-sort_by, All-keep, Any-keep, Any-map}
unfoldable pub use Sorting.{insert_by, sort_by, keep}
pub use Prim.Native.Nat.{ℕ, zero, suc, ◌+◌, ◌-◌, ◌*◌, ◌/◌, ◌%◌, ◌^◌, ◌≤◌, ◌<◌, min, max}
pub use Prim.Native.String.{String, ◌++◌ as str_append}
pub use mathlib.Core.Path.{◌≡◌, refl, sym, ap, subst, ◌∙◌}
pub use mathlib.Core.Logic.{◌≢◌, ◌↔◌, ◌⊎◌, inl, inr}
pub use mathlib.Core.Bool.{Bool, true, false, not, ◌&&◌, ◌||◌}
pub use mathlib.Core.Option.{Option, none, some}
pub use mathlib.Core.List.{List, [], ◌∷◌, ◌++◌, map}
pub use native.Mathlib.Omega.{arith}
