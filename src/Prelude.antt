-- ===== src/Prelude.antt =====
-- Shared names: the libraries', passed on, and those of the children.
mod Tests
mod Lists
mod Int
mod Keys
mod Tables
mod KeySets
mod Rows
pub use Tests.*
pub use Lists.*
unfoldable pub use Int.*
pub use Keys.*
unfoldable pub use Tables.*
unfoldable pub use Rows.*
unfoldable pub use KeySets.*
pub use Prim.Native.Nat.{ℕ, zero, suc, ◌+◌, ◌-◌, ◌*◌, ◌/◌, ◌%◌, ◌^◌, ◌≤◌, ◌<◌}
pub use Prim.Native.String.{String}
pub use mathlib.Core.Path.{◌≡◌, refl, sym, ap, subst, ◌∙◌}
pub use mathlib.Core.Logic.{◌≢◌, ◌↔◌, ◌⊎◌, inl, inr}
pub use mathlib.Core.Bool.{Bool, true, false, not, ◌&&◌, ◌||◌}
pub use mathlib.Core.Option.{Option, none, some}
pub use mathlib.Core.List.{List, [], ◌∷◌, ◌++◌, map}
pub use native.Mathlib.Omega.{arith}
