-- ===== src/Base.antt =====
-- The names that every other module shares: the libraries', passed on, and those of the children,
-- which model the parts of Python that the program leans on (dict, list, sorted, exceptions).
mod Tests
mod Lists
pub mod Sort
pub mod Distinct
pub mod Waves
pub mod Dict
pub mod Result
pub mod Json
pub mod Session
pub mod Selection
pub mod Selected
pub mod Maybe
pub mod Exec
pub mod Time
pub use Tests.*
unfoldable pub use Lists.*
pub use Prim.Native.Nat.{ℕ, zero, suc, ◌+◌, ◌-◌, ◌*◌, ◌/◌, ◌%◌, ◌^◌, ◌≤◌, ◌<◌, min, max}
pub use Prim.Native.String.{String}
pub use mathlib.Core.Path.{◌≡◌, refl, sym, ap, ◌∙◌}
pub use mathlib.Core.Logic.{◌≢◌, ◌↔◌, ◌⊎◌, inl, inr}
pub use mathlib.Core.Bool.{Bool, true, false, not, ◌&&◌, ◌||◌}
pub use mathlib.Core.Option.{Option, none, some}
pub use mathlib.Core.List.{List, [], ◌∷◌, ◌++◌, map}
pub use native.Mathlib.Omega.{arith}
