-- ===== src/Base.antt =====
-- The names that every module shares: the libraries', passed on, and those of the children.
mod Tests
mod Lists
mod Bytes
mod Maps
mod Strings
mod Evict
mod Descents
mod Sort
pub mod Int
pub use Tests.*
pub use Lists.*
unfoldable pub use Bytes.{
  ascii, text_eq, starts_with, contains, is_ascii_hexdigit, ascii_lower, is_continuation,
}
pub use Bytes.{Text, text_eq_iff, text_eq_refl}
unfoldable pub use Maps.{lookup, erase, insert, retain, contains_key, keep_if}
unfoldable pub use Strings.{trim_start, trim_end, trim, strip, white, decimal, digits_onto}
unfoldable pub use Sort.{sort_by, insert_sorted}
pub use Sort.{Memᴰ-sort_by, sorted-Memᴰ, length-sort_by}
pub use Descents.{total, total-append, descent, descent_step}
unfoldable pub use Evict.{remove_keys, sort_by_key, insert_by_key}
pub use Evict.{
  Listed, length-remove_oldest, remove_oldest_lem, lookup-remove_keys, lookup-sort_by_key,
  lookup-take,
}
pub use Maps.{
  Dict, Distinct, lookup-erase, lookup-insert, lookup-retain, Distinct-erase, Distinct-insert,
  Distinct-retain, length-erase-le, length-retain-le,
}
pub use Prim.Native.Nat.{ℕ, zero, suc, ◌+◌, ◌-◌, ◌*◌, ◌/◌, ◌%◌, ◌^◌, ◌≤◌, ◌<◌, min, max}
pub use mathlib.Core.Path.{◌≡◌, refl, sym, ap, ◌∙◌}
pub use mathlib.Core.Logic.{◌≢◌, ◌↔◌, ◌⊎◌, inl, inr}
pub use mathlib.Core.Bool.{Bool, true, false, ◌&&◌, ◌||◌}
pub use mathlib.Core.Option.{Option, none, some}
pub use mathlib.Core.List.{List, [], ◌∷◌, ◌++◌, map, reverse}
pub use native.Mathlib.Omega.{arith}
