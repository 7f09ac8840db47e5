-- ===== src/Prelude.antt =====
-- The names that the other modules share: the libraries', passed on, and those of the children.
mod Tests
mod Lists
mod Maps
mod Upsert
mod Table
mod Least
mod Witnesses
mod Text
pub use Tests.*
pub use Lists.*
pub use Table.*
pub use Least.{str_ltb-cotrans, select_least-none, select_least-first}
pub use Witnesses.*
pub use Text.{str_ltb, str_ltb-asym, str_ltb-total, byte_length-append, all_chars-append}
unfoldable pub use Text.{trim_space, byte_length, all_chars}
pub use Upsert.{find-upsert, find-update_all}
unfoldable pub use Upsert.{find, upsert, update_all}
pub use Maps.{lookup-insert, lookup-without, length-without-lt}
unfoldable pub use Maps.{lookup, insert, without}
pub use Prim.Native.Nat.{ℕ, zero, suc, ◌+◌, ◌-◌, ◌*◌, ◌/◌, ◌%◌, ◌^◌, ◌≤◌, ◌<◌, min, max}
pub use Prim.Native.String.{String, len}
pub use mathlib.Core.Path.{◌≡◌, refl, sym, ap, ◌∙◌}
pub use mathlib.Core.Logic.{◌≢◌, ◌↔◌, ◌⊎◌, inl, inr}
pub use mathlib.Core.Bool.{Bool, true, false, not, ◌&&◌, ◌||◌}
pub use mathlib.Core.Option.{Option, none, some}
pub use mathlib.Core.List.{List, [], ◌∷◌, ◌++◌, map, Memᴰ}
pub use native.Mathlib.Omega.{arith}
pub use text.Mathlib.TextEquality.{eq_iff}
