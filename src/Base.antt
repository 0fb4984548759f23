-- ===== src/Base.antt =====
-- The names that the other modules share: the libraries', passed on, and those of the children.
mod Tests
mod Equality
mod Lists
mod Results
mod Instants
mod Text
mod Hex
mod Patterns
pub mod Json
pub use Tests.*
unfoldable pub use Equality.*
unfoldable pub use Lists.*
pub use Results.*
pub use Instants.*
unfoldable pub use Text.{trim, is_visible, is_space}
pub use Text.{truthy-trim}
unfoldable pub use Hex.{hex_digit, decode_hex, utf16_length, text_prefix, utf16_prefix}
unfoldable pub use Patterns.*
pub use Prim.Native.Nat.{ℕ, zero, suc, ◌+◌, ◌-◌, ◌*◌, ◌/◌, ◌%◌, ◌^◌, ◌≤◌, ◌<◌, min, max}
pub use Prim.Native.String.{String}
pub use mathlib.Core.Path.{◌≡◌, refl, sym, ap, ◌∙◌}
pub use mathlib.Core.Logic.{◌≢◌, ◌↔◌, ◌⊎◌, inl, inr}
pub use mathlib.Core.Bool.{Bool, true, false, not, ◌&&◌, ◌||◌}
pub use mathlib.Core.Option.{Option, none, some}
pub use mathlib.Core.List.{List, [], ◌∷◌, ◌++◌, map}
pub use native.Mathlib.Omega.{arith}
