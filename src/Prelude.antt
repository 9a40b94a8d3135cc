-- ===== src/Prelude.antt =====
-- The names that all modules share: the libraries', passed on, and those of the children. The
-- children stand for what Python gives the source: comparisons, lists, dictionaries, integers that
-- may be negative, and exceptions.
mod Tests
mod Lists
mod Equality
mod Membership
mod Errors
pub mod Int
pub mod Dict
pub use Tests.*
pub use Lists.*
pub use Equality.*
pub use Membership.*
pub use Errors.*
pub use Prim.Native.Nat.{ℕ, zero, suc, ◌+◌, ◌-◌, ◌*◌, ◌/◌, ◌%◌, ◌≤◌, ◌<◌, min, max}
pub use Prim.Native.String.{String}
pub use mathlib.Core.Path.{◌≡◌, refl, sym, ap, ◌∙◌, subst, fun_ext}
pub use mathlib.Core.Logic.{◌≢◌, ◌↔◌, ◌⊎◌, inl, inr}
pub use mathlib.Core.Bool.{Bool, true, false, not, ◌&&◌, ◌||◌}
pub use mathlib.Core.Option.{Option, none, some}
pub use mathlib.Core.List.{List, [], ◌∷◌, ◌++◌, map, append-nil, append_assoc, map-append}
pub use native.Mathlib.Omega.{arith}
