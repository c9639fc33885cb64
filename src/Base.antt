-- ===== src/Base.antt =====
-- The names that the other modules share: the libraries', passed on, and those of the children.
mod Tests
mod Lists
mod Arrays
mod Octets
mod Fields
mod Loops
mod Results
mod Residue
mod Reading
mod Decimal
mod Settles
unfoldable pub use Tests.*
unfoldable pub use Lists.*
unfoldable pub use Arrays.*
unfoldable pub use Octets.*
unfoldable pub use Fields.*
unfoldable pub use Loops.*
unfoldable pub use Results.*
unfoldable pub use Residue.*
unfoldable pub use Reading.*
unfoldable pub use Decimal.*
unfoldable pub use Settles.*
pub use Prim.Native.Nat.{ℕ, zero, suc, ◌+◌, ◌-◌, ◌*◌, ◌/◌, ◌%◌, ◌^◌, ◌≤◌, ◌<◌, min, max}
pub use mathlib.Core.Path.{◌≡◌, refl, sym, ap, ap₂, ◌∙◌}
pub use mathlib.Core.Logic.{◌≢◌, ◌↔◌, ◌⊎◌, inl, inr}
pub use mathlib.Core.Bool.{Bool, true, false, ◌&&◌, ◌||◌, not}
pub use mathlib.Core.Option.{Option, none, some}
pub use mathlib.Core.List.{List, [], ◌∷◌, ◌++◌, append-nil, append_assoc}
pub use native.Mathlib.Omega.{arith}
