-- ===== src/Common.antt =====
-- Names that every module shares: the libraries', passed on, the Boolean tests, Python's signed
-- numbers, the exceptions of the services, the tables of the database session and its loops.
mod Tests
mod Int
mod Outcome
mod Rows
mod Loop
pub use Tests.*
pub use Int.*
unfoldable pub use Int.{◌+ℤ◌, ◌-ℤ◌, ◌*ℤ◌}
pub use Outcome.*
pub use Rows.*
unfoldable pub use Rows.{lookup, put, sum_by, AllRows, select}
pub use Loop.*
unfoldable pub use Loop.{for_each, sum, sorted, any}
pub use Prim.Native.Nat.{ℕ, zero, suc, ◌+◌, ◌-◌, ◌*◌, ◌/◌, ◌%◌, ◌≤◌, ◌<◌}
pub use mathlib.Core.Path.{◌≡◌, refl, sym, ap, ◌∙◌, subst, subst₂}
pub use mathlib.Core.Logic.{◌≢◌, ◌↔◌, ◌⊎◌, inl, inr}
pub use mathlib.Core.Bool.{Bool, true, false, not, ◌&&◌, ◌||◌}
pub use mathlib.Core.Option.{Option, none, some}
pub use mathlib.Core.List.{List, [], ◌∷◌, ◌++◌, map}
pub use native.Mathlib.Omega.{arith}
