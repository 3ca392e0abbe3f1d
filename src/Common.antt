-- ===== src/Common.antt =====
-- Names that every module shares: the libraries' names, passed on, Boolean tests on numbers, lists
-- that are measured and indexed by numbers, integers, and Python's exceptions.
mod Tests
mod Lists
mod Int
mod Python
pub mod Text
pub mod Dict
pub mod Parts
pub mod Members
pub use Tests.*
pub use Lists.*
pub use Int.*
pub use Python.*
pub use Prim.Native.Nat.{ℕ, zero, suc, ◌+◌, ◌-◌, ◌*◌, ◌/◌, ◌%◌, ◌≤◌, ◌<◌}
pub use Prim.Native.String.{String}
pub use mathlib.Core.Path.{◌≡◌, refl, sym, ap, ◌∙◌}
pub use mathlib.Core.Logic.{◌≢◌, ◌↔◌, ◌⊎◌, inl, inr}
pub use mathlib.Core.Bool.{Bool, true, false, not, ◌&&◌, ◌||◌}
pub use mathlib.Core.Option.{Option, none, some}
pub use mathlib.Core.List.{List, [], ◌∷◌, ◌++◌, map}
pub use native.Mathlib.Omega.{arith}
pub use text.Mathlib.Text.{◌==◌ as str_eq}
pub use text.Mathlib.TextEquality.{eq_iff}
