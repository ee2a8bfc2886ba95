-- ===== src/Base.antt =====
-- Shared names: the libraries', passed on, and those of the children. `Base.Tests` has the Boolean
-- tests and case splits, `Base.Lists` lists measured by native numbers, `Base.Results` fallible
-- values, `Base.Bytes` Rust strings as lists of UTF-8 bytes, `Base.Int` signed integers and decimal
-- numerals, `Base.Order` sorting, `Base.Distinct` lists without repetition, and `Base.Actions` code with a state and errors.
mod Tests
mod Lists
mod Results
mod Bytes
pub mod Int
pub mod Order
pub mod Distinct
pub mod Actions
pub use Tests.*
pub use Lists.*
pub use Results.*
unfoldable pub use Bytes.*
pub use Prim.Native.Nat.{ℕ, zero, suc, ◌+◌, ◌-◌, ◌*◌, ◌/◌, ◌%◌, ◌^◌, ◌≤◌, ◌<◌}
pub use mathlib.Core.Path.{◌≡◌, refl, sym, ap, ◌∙◌}
pub use mathlib.Core.Logic.{◌≢◌, ◌↔◌, ◌⊎◌, inl, inr}
pub use mathlib.Core.Bool.{Bool, true, false, not, ◌&&◌, ◌||◌}
pub use mathlib.Core.Option.{Option, none, some}
pub use mathlib.Core.List.{List, [], ◌∷◌, ◌++◌, map, append-nil, append_assoc}
pub use native.Mathlib.Omega.{arith}
