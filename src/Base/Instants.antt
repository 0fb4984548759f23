-- ===== src/Base/Instants.antt =====
-- The instants of JavaScript's Date. An instant is counted in milliseconds from the earliest one
-- that a Date can hold (8.64e15 before 1970), so it is a natural number, and differences and order
-- are those of the time values. `Date.parse` and `toISOString` are the engine's: a parameter.
use Prim.Native.Nat.{ℕ, ◌≤◌}
use Prim.Native.String.{String}
use mathlib.Core.Bool.{Bool, false}
use mathlib.Core.Path.{◌≡◌}
use mathlib.Core.Option.{Option, none, some}
use legacy_vault.Base.Tests.{ltb, leb, if◌then◌else◌}

-- `parse` is `none` where the engine gives NaN.
pub record Dates : Type 0 where
  pub parse : String → Option ℕ
  pub print : ℕ → String

-- The latest instant that a Date can hold.
abbrev pub latest : ℕ
latest = 17_280_000_000_000_000

-- ECMAScript: a Date printed by toISOString is parsed to the same time value.
abbrev pub PrintParses : Dates → Type 0
PrintParses d = (t : ℕ) → t ≤ latest → d.parse (d.print t) ≡ some t

-- `new Date(t).getTime()`
abbrev pub time_clip : ℕ → Option ℕ
time_clip t = if leb t latest then some t else none

-- Comparisons of numbers of which either may be NaN.
abbrev pub lt? : Option ℕ → Option ℕ → Bool
lt? (some a) (some b) = ltb a b
lt? (some a) none = false
lt? none _ = false

abbrev pub le? : Option ℕ → Option ℕ → Bool
le? (some a) (some b) = leb a b
le? (some a) none = false
le? none _ = false
