-- ===== src/Base.antt =====
-- What the modules share: the libraries' names, passed on, Boolean tests, lists under Boolean
-- predicates, text as lists of code points, and integers.
mod Tests
pub mod Lists
pub mod Strings
pub mod Int
pub mod Interpreter
pub mod Csv
pub mod Decode
unfoldable pub use Tests.*
unfoldable pub use Lists.*
unfoldable pub use Strings.*
unfoldable pub use Int.*
unfoldable pub use Interpreter.*
unfoldable pub use Csv.*
unfoldable pub use Decode.*
pub use Prim.Native.Nat.{ℕ, zero, suc, ◌+◌, ◌-◌, ◌*◌, ◌/◌, ◌%◌, ◌≤◌, ◌<◌}
pub use Prim.Native.String.{String}
pub use mathlib.Core.Path.{◌≡◌, refl, sym, ap, ◌∙◌}
pub use mathlib.Core.Logic.{◌≢◌, ◌↔◌, ◌⊎◌, inl, inr}
pub use mathlib.Core.Bool.{Bool, true, false, not, ◌&&◌, ◌||◌}
pub use mathlib.Core.Option.{Option, none, some}
pub use mathlib.Core.List.{List, [], ◌∷◌, ◌++◌, map, flat_map}
pub use native.Mathlib.Omega.{arith}
