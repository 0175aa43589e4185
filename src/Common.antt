-- ===== src/Common.antt =====
-- The names that the modules of the development share: the libraries', passed on, and those of the
-- children: equality tests, errors, database tables, and the monad of fallible stateful operations.
mod Equality
mod Table
mod Rows
mod Errors
mod Execution
mod Outcome
mod Runs
mod Returns
mod Sorting
unfoldable pub use Equality.*
unfoldable pub use Table.*
pub use Rows.*
unfoldable pub use Errors.*
unfoldable pub use Execution.*
unfoldable pub use Outcome.*
pub use Runs.*
pub use Returns.*
unfoldable pub use Sorting.*
pub use Prim.Native.Nat.{ℕ, zero, suc, ◌+◌, ◌-◌, ◌*◌, ◌^◌, ◌≤◌, ◌<◌, min}
pub use Prim.Native.String.{String, ◌++◌ as ◌<>◌}
pub use mathlib.Core.Path.{◌≡◌, refl, sym, ap, ◌∙◌}
pub use mathlib.Core.Logic.{◌≢◌, ◌⊎◌, inl, inr}
pub use mathlib.Core.Bool.{Bool, true, false, not, ◌&&◌, ◌||◌}
pub use mathlib.Core.Option.{Option, none, some}
pub use mathlib.Core.List.{List, [], ◌∷◌, ◌++◌, map}
pub use native.Mathlib.Omega.{arith}
