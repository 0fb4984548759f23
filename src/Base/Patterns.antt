-- ===== src/Base/Patterns.antt =====
-- The patterns of the source's regular expressions with the flags `iu`: words, and runs of a fixed number
-- of hexadecimal digits and dashes.
use Prim.Native.Char.{code}
use Prim.Native.Nat.{ℕ, zero, suc, ◌+◌}
use Prim.Native.String.{String}
use mathlib.Core.Bool.{Bool, true, false, ◌&&◌, ◌||◌}
use mathlib.Core.Option.{Option, none, some}
use mathlib.Core.List.{List, [], ◌∷◌}
use legacy_vault.Base.Tests.{leb, if◌then◌else◌}
use legacy_vault.Base.Equality.{nat_beq}

-- A character as the flags `iu` compare it with a lower-case letter: A to Z, the long s and the
-- Kelvin sign fold to letters.
unfoldable pub fold_case : ℕ → ℕ
fold_case c =
    if leb b'A' c && leb c b'Z'
    then c + 32
    else (if nat_beq c 0x17f then b's' else (if nat_beq c 0x212a then b'k' else c))

-- The text begins with the word, whatever its case.
unfoldable pub begins_folded : String → String → Bool
unfolding fold_case
begins_folded String.[] s = true
begins_folded (String.◌∷◌ w word) String.[] = false
begins_folded (String.◌∷◌ w word) (String.◌∷◌ c s) =
    nat_beq (code w) (fold_case (code c)) && begins_folded word s

unfoldable pub has_folded : String → String → Bool
unfolding begins_folded
has_folded word String.[] = begins_folded word ""
has_folded word (String.◌∷◌ c s) = begins_folded word (String.◌∷◌ c s) || has_folded word s

-- `text.startsWith(word)`
unfoldable pub starts_with : String → String → Bool
starts_with text String.[] = true
starts_with String.[] (String.◌∷◌ w word) = false
starts_with (String.◌∷◌ c text) (String.◌∷◌ w word) =
    nat_beq (code w) (code c) && starts_with text word

unfoldable pub strip_word : String → String → Option String
unfolding fold_case
strip_word String.[] s = some s
strip_word (String.◌∷◌ w word) String.[] = none
strip_word (String.◌∷◌ w word) (String.◌∷◌ c s) =
    let rest = strip_word word s in if nat_beq (code w) (fold_case (code c)) then rest else none

-- `[0-9a-f-]`
unfoldable pub is_hex_or_dash : ℕ → Bool
unfolding fold_case
is_hex_or_dash c =
    (leb b'0' c && leb c b'9')
    || ((leb b'a' (fold_case c) && leb (fold_case c) b'f') || nat_beq c b'-')

unfoldable pub strip_hex : ℕ → String → Option String
unfolding is_hex_or_dash
strip_hex zero s = some s
strip_hex (suc n) String.[] = none
strip_hex (suc n) (String.◌∷◌ c s) =
    let rest = strip_hex n s in if is_hex_or_dash (code c) then rest else none

pub data Part : Type 0 where
  word : String → Part
  hexes : ℕ → Part

abbrev pub strip_part : Part → String → Option String
strip_part (word w) s = strip_word w s
strip_part (hexes n) s = strip_hex n s

-- The parts in order make up the whole text.
unfoldable pub matches_parts : List Part → String → Bool
unfolding strip_word strip_hex
matches_parts [] String.[] = true
matches_parts [] (String.◌∷◌ c s) = false
matches_parts (part ∷ parts) s = elim (strip_part part s) [
  | none ↦ false
  | some rest ↦ matches_parts parts rest
]
