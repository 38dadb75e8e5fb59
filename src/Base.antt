-- ===== src/Base.antt =====
-- The names that the other modules share.
mod Tests
mod Int
mod Equality
mod Maps
mod Text
mod Lists
mod Decimal
mod Results
unfoldable pub use Tests.*
unfoldable pub use Int.*
pub use Equality.{Comparable}
unfoldable pub use Equality.{◌==◌, nat_eq, int_eq, string_eq}
pub use Equality.{beq_refl, beq_or}
unfoldable pub use Maps.*
unfoldable pub use Text.*
unfoldable pub use Lists.*
unfoldable pub use Decimal.*
unfoldable pub use Results.*
pub use Prim.Native.Nat.{ℕ, zero, suc, ◌+◌, ◌-◌, ◌*◌, ◌/◌, ◌%◌, ◌≤◌, ◌<◌}
pub use Prim.Native.String.{String}
pub use mathlib.Core.Path.{◌≡◌, refl, sym, ap, ◌∙◌, subst}
pub use mathlib.Core.Logic.{◌≢◌, ◌↔◌, ◌⊎◌, inl, inr}
pub use mathlib.Core.Bool.{Bool, true, false, not, ◌&&◌, ◌||◌}
pub use mathlib.Core.Option.{Option, none, some}
pub use mathlib.Core.List.{List, [], ◌∷◌, ◌++◌, map}
pub use native.Mathlib.Omega.{arith}
