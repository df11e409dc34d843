-- ===== src/Common.antt =====
-- The names that the other modules share: the library's, passed on, and those of the children
-- (Boolean tests, lists indexed by native numbers, predicates over lists, 64-bit arithmetic).
mod Tests
mod Lists
mod Multiples
mod Predicates
mod Tabulate
mod Results
mod Integers
mod Words
pub use Tests.*
pub use Lists.*
pub use Multiples.*
pub use Predicates.*
pub use Tabulate.*
pub use Results.*
pub use Integers.*
pub use Words.*
pub use Prim.Native.Nat.{
  ℕ, zero, suc, ◌+◌, ◌-◌, ◌*◌, ◌/◌, ◌%◌, ◌^◌, ◌≤◌, ◌<◌, min, max, compare, Ordering,
}
pub use mathlib.Core.Path.{◌≡◌, refl, sym, ap, ap₂, ◌∙◌, subst, fun_ext}
pub use mathlib.Core.Logic.{◌≢◌, ◌↔◌, ◌⊎◌, inl, inr}
pub use mathlib.Core.Bool.{Bool, true, false, not, ◌&&◌, ◌||◌}
pub use mathlib.Core.Option.{Option, none, some}
pub use mathlib.Core.List.{List, [], ◌∷◌, ◌++◌, map, reverse, append-nil, append_assoc, Perm, Mem}
pub use native.Mathlib.Omega.{arith}
