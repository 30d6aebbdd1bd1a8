-- ===== src/Base.antt =====
-- Names and helpers that the other modules share: the libraries' names passed on, equality tests,
-- results, byte strings, lists over the native numbers and signed integers.
mod Equality
mod Outcome
mod Lists
mod Counts
mod Octets
pub mod Int
pub use Equality.*
pub use Outcome.*
pub use Lists.*
pub use Counts.{
  set, bit, All, All-snoc, All-set, All-get_elem?, All-mono, All-both, All-count_if_zero,
  count_if-All-false, count_if-snoc, count_if-set, count_if-pos, count_if_mono,
}
unfoldable pub use Counts.{count_if}
unfoldable pub use Octets.*
pub use Int.{ℤ, pos, negsuc, int_eq, is_negative, leb_ℤ}
pub use Prim.Native.Nat.{ℕ, zero, suc, ◌+◌, ◌-◌, ◌*◌, ◌/◌, ◌%◌, ◌^◌, ◌≤◌, ◌<◌}
pub use Prim.Native.String.{String}
pub use mathlib.Core.Path.{◌≡◌, refl, sym, ap, ◌∙◌}
pub use mathlib.Core.Logic.{◌≢◌, ◌↔◌, ◌⊎◌, inl, inr}
pub use mathlib.Core.Bool.{Bool, true, false, not, ◌&&◌, ◌||◌}
pub use mathlib.Core.Option.{Option, none, some}
pub use mathlib.Core.List.{List, [], ◌∷◌, ◌++◌}
pub use native.Mathlib.Omega.{arith}
unfoldable pub use native.Mathlib.Decide.{ℕ_discrete}
