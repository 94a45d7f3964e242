-- ===== src/Prelude.antt =====
-- The names that the other modules share: the libraries', passed on, and those of the children.
mod Tests
mod Lists
mod Maps
mod Keys
mod Encoding
mod Results
pub use Tests.*
pub use Lists.*
unfoldable pub use Encoding.*
pub use Results.*
pub use Keys.{Unique-insert, Unique-delete, length-delete, length-insert_new, length-insert_old}
unfoldable pub use Keys.{Unique}
pub use Maps.{
  Map, unless, map_laws, lookup-insert, lookup-delete, lookup-delete_if, length-insert,
  lookup-insert_self,
}
unfoldable pub use Maps.{lookup, insert, delete, delete_if}
pub use Prim.Native.Nat.{ℕ, zero, suc, ◌+◌, ◌-◌, ◌*◌, ◌/◌, ◌%◌, ◌^◌, ◌≤◌, ◌<◌, min}
pub use Prim.Native.String.{String, ◌++◌ as str_append}
pub use mathlib.Core.Path.{◌≡◌, refl, sym, ap, ◌∙◌}
pub use mathlib.Core.Logic.{◌≢◌, ◌↔◌, ◌⊎◌, inl, inr}
pub use mathlib.Core.Bool.{Bool, true, false, not, ◌&&◌, ◌||◌}
pub use mathlib.Core.Option.{Option, none, some}
pub use mathlib.Core.List.{List, [], ◌∷◌, ◌++◌, map, reverse}
pub use mathlib.Core.List.{append-nil, append_assoc, reverse-append, reverse-reverse}
pub use native.Mathlib.Omega.{arith}
