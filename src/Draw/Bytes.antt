-- ===== src/Draw/Bytes.antt =====
-- Bytes, hexadecimal and decimal texts, and the bounded parsers of draw-verify.ts.
pub mod Laws
use twilight_core_explorer.Common.{
  ℕ, zero, suc, ◌+◌, ◌-◌, ◌*◌, ◌/◌, ◌%◌, ◌^◌, String, Bool, true, false, not, ◌&&◌, Option, none,
  some, List, [], ◌∷◌, ◌++◌, map, ltb, leb, ◌==◌, length, every, if◌then◌else◌,
}
use twilight_core_explorer.Text.{Text, eq_text, is_digit, is_lower_hex, is_hex, to_lower}
use twilight_core_explorer.Json.{Json, null, bool, num, other_num, str, arr, obj}

abbrev pub Bytes : Type 0
Bytes = List ℕ

-- `u16be`, `u32be` and `u64be` for two, four and eight bytes. A number that does not fit makes the
-- source throw; here its low bytes are written.
unfoldable pub big_endian : ℕ → ℕ → Bytes
big_endian zero n = []
big_endian (suc k) n = (n / 256 ^ k) % 256 ∷ big_endian k n

abbrev pub u16be : ℕ → Bytes
u16be = big_endian 2

abbrev pub u32be : ℕ → Bytes
u32be = big_endian 4

abbrev pub u64be : ℕ → Bytes
u64be = big_endian 8

-- the digit of a number below 16
unfoldable pub hex_digit : ℕ → ℕ
hex_digit n = if ltb n 10 then b'0' + n else b'a' + (n - 10)

-- the number of a lower-case digit
unfoldable pub hex_value : ℕ → ℕ
hex_value c = if leb c b'9' then c - b'0' else c - b'a' + 10

-- `buf.toString('hex')`
unfoldable pub to_hex : Bytes → Text
unfolding hex_digit
to_hex [] = []
to_hex (b ∷ bs) = hex_digit (b / 16) ∷ hex_digit (b % 16) ∷ to_hex bs

-- `Buffer.from(s, 'hex')` on lower-case digits, an even number of them
unfoldable pub from_hex : Text → Bytes
unfolding hex_value
from_hex [] = []
from_hex (c ∷ []) = []
from_hex (c ∷ d ∷ s) = (hex_value c * 16 + hex_value d) ∷ from_hex s

-- `hex32`
abbrev pub hex32_text : Text → Option Bytes
hex32_text s = if length s == 64 && every is_hex s then some (from_hex (map to_lower s)) else none

unfoldable pub hex32 : Option Text → Option Bytes
unfolding from_hex to_lower
hex32 none = none
hex32 (some s) = hex32_text s

-- `drawId32`
abbrev draw_id_of : Text → Option Bytes
draw_id_of s =
    if length s == 64 && every is_lower_hex s
    then (if every (λ b. b == 0) (from_hex s) then none else some (from_hex s))
    else none

unfoldable pub draw_id32 : Json → Option Bytes
unfolding from_hex
draw_id32 (str s) = draw_id_of s
draw_id32 _ = none

-- the value of a text of decimal digits
unfoldable pub decimal_from : ℕ → Text → ℕ
decimal_from n [] = n
decimal_from n (c ∷ s) = decimal_from (n * 10 + (c - b'0')) s

-- `n.toString()`: one round of fuel for each digit, and `n` rounds are enough
unfoldable pub decimal_rounds : ℕ → ℕ → Text
decimal_rounds zero n = []
decimal_rounds (suc f) n = elim (ltb n 10) [
  | true ↦ (b'0' + n) ∷ []
  | false ↦ decimal_rounds f (n / 10) ++ (b'0' + n % 10) ∷ []
]

unfoldable pub to_decimal : ℕ → Text
unfolding decimal_rounds
to_decimal n = decimal_rounds (suc n) n

-- `MAX_UINT_DIGITS`
abbrev pub max_uint_digits : ℕ
max_uint_digits = 12

-- `Number.MAX_SAFE_INTEGER`
abbrev pub max_safe_integer : ℕ
max_safe_integer = 2 ^ 53 - 1

-- `/^\d+$/`
abbrev pub is_digits : Text → Bool
is_digits s = not (length s == 0) && every is_digit s

abbrev pub bounded_text : Text → Option ℕ
bounded_text s =
    if is_digits s && leb (length s) max_uint_digits then some (decimal_from 0 s) else none

-- `toBoundedBig`; `none` for `undefined` too
unfoldable pub to_bounded_big : Option Json → Option ℕ
unfolding decimal_from to_decimal
to_bounded_big (some (num n)) = if leb n max_safe_integer then bounded_text (to_decimal n) else none
to_bounded_big (some (str s)) = bounded_text s
to_bounded_big _ = none

-- `Buffer.compare(a, b) < 0`
unfoldable pub lt_bytes : Bytes → Bytes → Bool
lt_bytes [] [] = false
lt_bytes [] (b ∷ bs) = true
lt_bytes (a ∷ as') [] = false
lt_bytes (a ∷ as') (b ∷ bs) =
    let rest = lt_bytes as' bs in if ltb a b then true else if a == b then rest else false

-- `hexEq`: our digest, if there is one, against a published text
unfoldable pub hex_eq : Option Bytes → Option Json → Option Bool
unfolding to_hex to_lower
hex_eq none v = none
hex_eq (some b) (some (str s)) = some (eq_text (to_hex b) (map to_lower s))
hex_eq (some b) _ = some false
