-- ===== src/Prelude.antt =====
-- The names that the other modules share: the libraries', passed on, and those of the children.
mod Tests
mod Eq
mod Lists
mod Maps
mod Fallible
mod Text
mod Utf8
pub use Tests.*
pub use Eq.*
pub use Lists.*
unfoldable pub use Maps.{Dict, get, insert, remove, adjust}
pub use Maps.{get-insert, get-remove, get-adjust, get-insert_self}
pub use Fallible.*
unfoldable pub use Text.{is_ws, trim_start, trim_end, trim, is_blank}
unfoldable pub use Utf8.{byte_len, is_char_boundary, prefix, truncate, floor_boundary}
pub use Utf8.{len_utf8, floor_boundary-is_char_boundary, floor_boundary-le, byte_len-prefix}
pub use Text.{codes, is_empty}
pub use Prim.Native.Nat.{ℕ, zero, suc, ◌+◌, ◌-◌, ◌*◌, ◌/◌, ◌%◌, ◌^◌, ◌≤◌, ◌<◌, min, max}
pub use Prim.Native.String.{String}
pub use mathlib.Core.Path.{◌≡◌, refl, sym, ap, subst, ◌∙◌}
pub use mathlib.Core.Logic.{◌≢◌, ◌↔◌, ◌⊎◌, inl, inr}
pub use mathlib.Core.Bool.{Bool, true, false, not, ◌&&◌, ◌||◌}
pub use mathlib.Core.Option.{Option, none, some}
pub use mathlib.Core.List.{
  List, [], ◌∷◌, ◌++◌, map, reverse, append-nil, append_assoc, reverse-cons, reverse-reverse,
}
pub use native.Mathlib.Omega.{arith}
