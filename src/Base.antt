-- ===== src/Base.antt =====
-- The names that the other modules share: the libraries', passed on, and those of the children.
mod Tests
mod Lists
mod Sums
mod Sorting
mod Updates
mod Results
pub mod Int
pub use Tests.*
pub use Lists.*
pub use Sums.*
unfoldable pub use Sorting.{insert_by, sort_by}
pub use Sorting.{
  sum_by-sort_by, length-sort_by, All-insert_by, All-sort_by, sort_by-All, IsChain, sort_by-IsChain,
}
unfoldable pub use Updates.{update_first, find_first}
pub use Updates.{
  sum_by-update_first, length-update_first, All-update_first, find_first-All, find_first-holds,
  find_first-update_first, update_first_absent, map-update_first,
}
pub use Results.*
pub use Prim.Native.Nat.{ℕ, zero, suc, ◌+◌, ◌-◌, ◌*◌, ◌/◌, ◌%◌, ◌^◌, ◌≤◌, ◌<◌, min, max}
pub use mathlib.Core.Path.{◌≡◌, refl, sym, ap, subst, ◌∙◌}
pub use mathlib.Core.Logic.{◌≢◌, ◌↔◌, ◌⊎◌, inl, inr}
pub use mathlib.Core.Bool.{Bool, true, false, not, ◌&&◌, ◌||◌}
pub use mathlib.Core.Option.{Option, none, some}
pub use mathlib.Core.List.{List, [], ◌∷◌, ◌++◌, map, append-nil, append_assoc}
pub use native.Mathlib.Omega.{arith}
