-- ===== src/Base/Text.antt =====
-- Texts by code point: JavaScript's white space and `trim`.
use Prim.Native.Char.{code}
use Prim.Native.String.{String}
use Prim.Native.Nat.{ℕ}
use mathlib.Core.Path.{◌≡◌, refl}
use mathlib.Core.Bool.{Bool, false, not, ◌&&◌, ◌||◌}
use native.Mathlib.Omega.{arith}
use legacy_vault.Base.Tests.{leb, if◌then◌else◌, truthy}
use legacy_vault.Base.Equality.{nat_beq}

-- ECMAScript's WhiteSpace and LineTerminator.
unfoldable pub is_space : ℕ → Bool
is_space c =
    leb 9 c && leb c 13
    || nat_beq c 32
    || nat_beq c 0xa0
    || nat_beq c 0x1680
    || leb 0x2000 c && leb c 0x200a
    || leb 0x2028 c && leb c 0x2029
    || nat_beq c 0x202f
    || nat_beq c 0x205f
    || nat_beq c 0x3000
    || nat_beq c 0xfeff

unfoldable pub trim_start : String → String
trim_start String.[] = ""
trim_start (String.◌∷◌ c s) = if is_space (code c) then trim_start s else String.◌∷◌ c s

unfoldable pub trim_end : String → String
trim_end String.[] = ""
trim_end (String.◌∷◌ c s) =
    let rest = trim_end s in
    if is_space (code c) && not (truthy rest) then "" else String.◌∷◌ c rest

unfoldable pub trim : String → String
unfolding trim_start trim_end
trim s = trim_end (trim_start s)

-- A text that shows something: not all of it is white space.
unfoldable pub is_visible : String → Bool
is_visible String.[] = false
is_visible (String.◌∷◌ c s) = not (is_space (code c)) || is_visible s

truthy-trim_end : (s : String) → truthy (trim_end s) ≡ is_visible s
unfolding trim_end is_visible
truthy-trim_end String.[] = refl
truthy-trim_end (String.◌∷◌ c s) = ground (arith, truthy-trim_end s)

is_visible-trim_start : (s : String) → is_visible (trim_start s) ≡ is_visible s
unfolding trim_start is_visible
is_visible-trim_start String.[] = refl
is_visible-trim_start (String.◌∷◌ c s) = ground (arith, is_visible-trim_start s)

pub truthy-trim : (s : String) → truthy (trim s) ≡ is_visible s
unfolding trim
truthy-trim s = ground (arith, truthy-trim_end (trim_start s), is_visible-trim_start s)
