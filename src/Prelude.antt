-- ===== src/Prelude.antt =====
-- What the modules share: names of the libraries, passed on, and tests, byte strings, decimal
-- numerals, dictionaries, the results of Rust functions and what holds at their end (in the child
-- modules).
mod Tests
mod ByteStrings
mod Decimal
mod Results
mod Lists
mod Words
pub mod Dict
pub mod Outcomes
unfoldable pub use Tests.*
unfoldable pub use ByteStrings.*
unfoldable pub use Decimal.*
unfoldable pub use Lists.*
unfoldable pub use Words.*
unfoldable pub use Results.*
pub use Prim.Native.Nat.{ℕ, zero, suc, ◌+◌, ◌-◌, ◌*◌, ◌/◌, ◌%◌, ◌^◌, ◌≤◌, ◌<◌}
pub use Prim.Native.String.{String}
pub use mathlib.Core.Path.{◌≡◌, refl, sym, ap, ◌∙◌}
pub use mathlib.Core.Logic.{◌≢◌, ◌↔◌, ◌⊎◌, inl, inr}
pub use mathlib.Core.Bool.{Bool, true, false, not, ◌&&◌, ◌||◌}
pub use mathlib.Core.Option.{Option, none, some}
pub use mathlib.Core.List.{List, [], ◌∷◌, ◌++◌, map}
pub use native.Mathlib.Omega.{arith}
