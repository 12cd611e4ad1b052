-- ===== src/Prelude.antt =====
-- What all modules share: the libraries' names passed on, tests on native numbers, lists measured
-- by native numbers, C integers and the status codes of include/kobox/device.h.
mod Bools
mod Lists
mod Ints
mod Bits
pub use Bools.*
unfoldable pub use Lists.*
pub use Ints.*
pub use Bits.*
pub use Prim.Native.Nat.{ℕ, zero, suc, ◌+◌, ◌-◌, ◌*◌, ◌/◌, ◌%◌, ◌^◌, ◌≤◌, ◌<◌}
pub use mathlib.Core.Path.{◌≡◌, refl, sym, ap, ◌∙◌}
pub use mathlib.Core.Logic.{◌≢◌, ◌↔◌, ◌⊎◌, inl, inr}
pub use mathlib.Core.Bool.{Bool, true, false, ◌&&◌, ◌||◌, not}
pub use mathlib.Core.Option.{Option, none, some}
pub use mathlib.Core.List.{List, [], ◌∷◌, ◌++◌}
pub use native.Mathlib.Omega.{arith}
