-- ===== src/Common.antt =====
-- The names that all modules share: the libraries', passed on, and those of the children.
mod Tests
mod Table
unfoldable pub use Tests.*
pub use Table.{
  none_ne_some, take, All, Distinct, length, count-same, update-update, count-update_le,
  find_of_count_zero, find-some-count_and, find-update, count-update, count-update_cleared,
  count-false, count-or, count-and_le, All-of, count_le_length, length-select, find-some,
  update_unmatched, count-insert, find-none-count, find-some-count, All-insert, All-update,
  All-delete, find-All, find-insert, find-insert_other, select-update,
}
unfoldable pub use Table.{select, find, count, update, delete, insert}
pub use Prim.Native.Nat.{ℕ, zero, suc, ◌+◌, ◌-◌, ◌*◌, ◌/◌, ◌%◌, ◌≤◌, ◌<◌}
pub use mathlib.Core.Path.{◌≡◌, refl, sym, ap, ◌∙◌, subst}
pub use mathlib.Core.Logic.{◌≢◌, ◌↔◌, ◌⊎◌, inl, inr}
pub use mathlib.Core.Bool.{Bool, true, false, not, ◌&&◌, ◌||◌}
pub use mathlib.Core.Option.{Option, none, some, some-injective}
pub use mathlib.Core.List.{List, [], ◌∷◌, ◌++◌, map}
pub use native.Mathlib.Omega.{arith}
