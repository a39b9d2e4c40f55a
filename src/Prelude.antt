-- ===== src/Prelude.antt =====
-- The names that the other modules share: the libraries', passed on, the tests and lists over the
-- native numbers, the laws of the bit operations, and the data types of client/include/sa_types.h.
mod Tests
mod Lists
mod Strings
mod Checks
mod Steps
pub mod Bits
pub mod Types
pub mod KeyType
pub mod CipherAlgorithm
pub mod CipherMode
pub use Tests.*
pub use Lists.*
unfoldable pub use Strings.{strnlen, strncmp_same}
pub use Types.*
pub use Checks.*
pub use Prim.Native.Nat.{ℕ, zero, suc, ◌+◌, ◌-◌, ◌*◌, ◌/◌, ◌%◌, ◌^◌, ◌≤◌, ◌<◌, min, max}
pub use Prim.Native.Nat.{bit_and, bit_or, bit_xor}
pub use mathlib.Core.Path.{◌≡◌, refl, sym, ap, ◌∙◌, subst}
pub use mathlib.Core.Logic.{◌≢◌, ◌↔◌, ◌⊎◌, inl, inr}
pub use mathlib.Core.Bool.{Bool, true, false, not, ◌&&◌, ◌||◌}
pub use mathlib.Core.Option.{Option, none, some}
pub use mathlib.Core.List.{List, [], ◌∷◌, ◌++◌, map}
pub use native.Mathlib.Omega.{arith}
