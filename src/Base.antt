-- ===== src/Base.antt =====
-- The names that the other modules share: the libraries' names, passed on, and those of the children.
mod Tests
mod Lists
mod Every
mod Results
mod Texts
mod Tables
mod Distinct
mod Measures
pub use Tests.*
pub use Lists.*
pub use Every.*
pub use Results.*
pub use Texts.*
pub use Tables.*
pub use Measures.*
unfoldable pub use Distinct.{distinct}
pub use Prim.Native.Nat.{ℕ, zero, suc, ◌+◌, ◌-◌, ◌≤◌, ◌<◌}
pub use Prim.Native.String.{String}
pub use mathlib.Core.Path.{◌≡◌, refl, sym, ap, ◌∙◌, subst}
pub use mathlib.Core.Logic.{◌≢◌, ◌↔◌, ◌⊎◌, inl, inr}
pub use mathlib.Core.Bool.{Bool, true, false, not, ◌&&◌, ◌||◌}
pub use mathlib.Core.Option.{Option, none, some}
pub use mathlib.Core.List.{List, [], ◌∷◌, ◌++◌, map}
pub use native.Mathlib.Omega.{arith}
