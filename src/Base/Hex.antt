-- ===== src/Base/Hex.antt =====
-- Node's `Buffer.from(text, "hex")`, and lengths in UTF-16 code units.
use Prim.Native.Char.{code}
use Prim.Native.Nat.{ℕ, zero, suc, ◌+◌, ◌-◌, ◌*◌}
use Prim.Native.String.{String}
use mathlib.Core.Bool.{◌&&◌}
use mathlib.Core.Option.{Option, none, some}
use mathlib.Core.List.{List, [], ◌∷◌}
use legacy_vault.Base.Tests.{leb, if◌then◌else◌}

-- The value of a hexadecimal digit.
unfoldable pub hex_digit : ℕ → Option ℕ
hex_digit c =
    if leb b'0' c && leb c b'9'
    then some (c - b'0')
    else (if leb b'a' c && leb c b'f'
        then some (c - b'a' + 10)
        else (if leb b'A' c && leb c b'F' then some (c - b'A' + 10) else none))

abbrev pub byte_of : Option ℕ → Option ℕ → Option ℕ
byte_of (some high) (some low) = some (high * 16 + low)
byte_of _ _ = none

abbrev pub cons? : Option ℕ → List ℕ → List ℕ
cons? none bytes = []
cons? (some byte) bytes = byte ∷ bytes

-- Decoding stops at the first pair that is no byte, and drops a single digit at the end.
unfoldable pub decode_hex : String → List ℕ
unfolding hex_digit
decode_hex String.[] = []
decode_hex (String.◌∷◌ c String.[]) = []
decode_hex (String.◌∷◌ c (String.◌∷◌ d s)) =
    cons? (byte_of (hex_digit (code c)) (hex_digit (code d))) (decode_hex s)

-- A character outside the basic plane counts as two.
unfoldable pub utf16_length : String → ℕ
utf16_length String.[] = 0
utf16_length (String.◌∷◌ c s) = (if leb 0x10000 (code c) then 2 else 1) + utf16_length s

-- `text.slice(0, n)`, for a text of ASCII characters.
unfoldable pub text_prefix : ℕ → String → String
text_prefix zero s = ""
text_prefix (suc n) String.[] = ""
text_prefix (suc n) (String.◌∷◌ c s) = String.◌∷◌ c (text_prefix n s)

-- `text.slice(0, n)`, in UTF-16 code units, as the database gets it: half of a pair at the cut is written
-- as the replacement character.
unfoldable pub utf16_prefix : ℕ → String → String
utf16_prefix zero s = ""
utf16_prefix (suc n) String.[] = ""
utf16_prefix (suc zero) (String.◌∷◌ c s) = if leb 0x10000 (code c) then "�" else String.◌∷◌ c ""
utf16_prefix (suc (suc n)) (String.◌∷◌ c s) =
    let pair = utf16_prefix n s in
    let unit = utf16_prefix (suc n) s in String.◌∷◌ c (if leb 0x10000 (code c) then pair else unit)
