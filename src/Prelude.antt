-- ===== src/Prelude.antt =====
-- The names that the other modules share: the libraries', passed on, and those of the children.
-- A `&str` or a path is the list of its bytes (`Bytes`) where the code works on bytes, and the list
-- of its characters (`Str`) where it works on characters; `Utf8` goes from one to the other.
mod Tests
mod Lists
mod Results
mod Texts
mod Splits
pub mod Bits
pub mod Cut
pub mod Decimal
pub mod Signed
pub mod Trim
pub mod Utf8
pub use Tests.*
pub use Lists.*
pub use Results.*
pub use Splits.*
pub use Texts.*
pub use Prim.Native.Nat.{ℕ, zero, suc, ◌+◌, ◌-◌, ◌*◌, ◌/◌, ◌%◌, ◌^◌, ◌≤◌, ◌<◌}
pub use mathlib.Core.Path.{◌≡◌, refl, sym, ap, ◌∙◌}
pub use mathlib.Core.Logic.{◌≢◌, ◌↔◌, ◌⊎◌, inl, inr}
pub use mathlib.Core.Bool.{Bool, true, false, not, ◌&&◌, ◌||◌}
pub use mathlib.Core.Option.{Option, none, some}
pub use mathlib.Core.List.{List, [], ◌∷◌, ◌++◌, map, append_assoc, append-nil}
pub use native.Mathlib.Omega.{arith}
