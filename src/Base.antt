-- ===== src/Base.antt =====
-- The names that the other modules share: the libraries', passed on, and those of the children.
mod Tests
mod Int
mod Results
pub mod Options
mod Texts
mod Lists
mod Marks
mod Partition
mod Sorting
mod Buckets
mod Keys
mod Sets
pub use Tests.*
pub use Int.*
pub use Results.*
unfoldable pub use Texts.*
unfoldable pub use Lists.*
unfoldable pub use Keys.*
unfoldable pub use Sets.*
unfoldable pub use Marks.*
unfoldable pub use Partition.*
unfoldable pub use Sorting.*
pub use Buckets.*
pub use Prim.Native.Nat.{ℕ, zero, suc, ◌+◌, ◌-◌, ◌*◌, ◌/◌, ◌%◌, ◌≤◌, ◌<◌}
pub use mathlib.Core.Path.{◌≡◌, refl, sym, ap, ◌∙◌}
pub use mathlib.Core.Logic.{◌≢◌, ◌↔◌, ◌⊎◌, inl, inr}
pub use mathlib.Core.Bool.{Bool, true, false, not, ◌&&◌, ◌||◌}
pub use mathlib.Core.Option.{Option, none, some}
pub use mathlib.Core.List.{List, [], ◌∷◌, ◌++◌, map}
pub use native.Mathlib.Omega.{arith}
