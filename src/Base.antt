-- ===== src/Base.antt =====
-- The names that the other modules share: the libraries' names, passed on, and those of the children
-- (Boolean tests, lists over the native numbers, texts, results).
mod Tests
mod Lists
mod Texts
mod Search
mod Maps
mod Time
pub mod Html
pub mod Sort
pub mod Distinct
mod Url
mod Results
pub use Tests.*
pub use Lists.*
unfoldable pub use Texts.*
pub use Search.*
unfoldable pub use Maps.*
pub use Time.*
unfoldable pub use Url.*
unfoldable pub use Results.*
pub use Prim.Native.Nat.{ℕ, zero, suc, ◌+◌, ◌-◌, ◌*◌, ◌/◌, ◌%◌, ◌^◌, ◌≤◌, ◌<◌}
pub use mathlib.Core.Path.{◌≡◌, refl, sym, ap, ◌∙◌, subst}
pub use mathlib.Core.Logic.{◌≢◌, ◌↔◌, ◌⊎◌, inl, inr}
pub use mathlib.Core.Bool.{Bool, true, false, not, ◌&&◌, ◌||◌}
pub use mathlib.Core.Option.{Option, none, some}
pub use mathlib.Core.List.{List, [], ◌∷◌, ◌++◌, map}
pub use native.Mathlib.Omega.{arith}
