-- ===== src/Base.antt =====
-- The names that the other modules share: the libraries', passed on, and those of the children.
mod Tests
mod Lists
mod Options
mod Storage
mod Order
mod Stripes
mod Tally
mod Permuted
pub use Tests.*
pub use Lists.*
pub use Options.*
pub use Storage.*
pub use Order.*
pub use Permuted.*
pub use Stripes.*
unfoldable pub use Tally.{tally}
pub use Tally.{
  tally-store, tally-ge, tally-replicate, tally-find, tally-add, tally_one, tally_mono,
  tally-add-le,
}
pub use Prim.Native.Nat.{ℕ, zero, suc, ◌+◌, ◌-◌, ◌*◌, ◌/◌, ◌%◌, ◌^◌, ◌≤◌, ◌<◌, min, max}
pub use mathlib.Core.Path.{◌≡◌, refl, sym, ap, ◌∙◌}
pub use mathlib.Core.Logic.{◌≢◌, ◌↔◌, ◌⊎◌, inl, inr}
pub use mathlib.Core.Bool.{Bool, true, false, not, ◌&&◌, ◌||◌}
pub use mathlib.Core.Option.{Option, none, some}
pub use mathlib.Core.List.{List, [], ◌∷◌, ◌++◌, map, Perm}
pub use native.Mathlib.Omega.{arith}
