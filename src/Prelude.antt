-- ===== src/Prelude.antt =====
-- The names that every module shares: the libraries', passed on, and those of its children.
mod Tests
mod Lists
mod Errors
mod Int
mod Memory
mod Digits
mod Slices
pub mod Positional
pub use Tests.*
pub use Lists.*
pub use Int.*
pub use Memory.{compare_bytes-value, value-injective}
unfoldable pub use Memory.{compare_bytes}
pub use Errors.*
pub use Slices.*
pub use Digits.{
  lower_digits, upper_digits, Denotes, IsDigit, Spells, Spells-digits, Reads, sound, complete,
  evaluate-Reads,
}
pub use Prim.Native.Nat.{ℕ, zero, suc, ◌+◌, ◌-◌, ◌*◌, ◌/◌, ◌%◌, ◌^◌, ◌≤◌, ◌<◌, Ordering}
pub use mathlib.Core.Path.{◌≡◌, refl, sym, ap, ◌∙◌, subst}
pub use mathlib.Core.Logic.{◌≢◌, ◌↔◌, ◌⊎◌, inl, inr}
pub use mathlib.Core.Bool.{Bool, true, false, not, ◌&&◌, ◌||◌}
pub use mathlib.Core.Option.{Option, none, some}
pub use mathlib.Core.List.{List, [], ◌∷◌, ◌++◌, map}
pub use native.Mathlib.Omega.{arith}
