-- ===== src/Text/Integers.antt =====
-- `BigInt(text)` and `n.toString()`, which the projections use on the attributes of events.
use twilight_core_explorer.Common.{
  ℕ, zero, suc, ◌+◌, ◌*◌, Bool, false, not, ◌&&◌, Option, none, some, [], ◌∷◌, ltb, ◌==◌, every,
  length, map, if◌then◌else◌,
}
use twilight_core_explorer.Text.{Text, trim, to_lower, is_lower_hex}
use twilight_core_explorer.Draw.Bytes.{to_decimal, hex_value}

-- `negsuc n` is `-1 - n`.
pub data ℤ : Type 0 where
  pos negsuc : ℕ → ℤ

abbrev pub eq_int : ℤ → ℤ → Bool
eq_int (pos a) (pos b) = a == b
eq_int (negsuc a) (negsuc b) = a == b
eq_int _ _ = false

-- the number of a text of digits, after `n`
unfoldable pub value_in : (base : ℕ) → ℕ → Text → ℕ
unfolding hex_value
value_in base n [] = n
value_in base n (c ∷ s) = value_in base (n * base + hex_value c) s

abbrev below : ℕ → ℕ → Bool
below base c = is_lower_hex c && ltb (hex_value c) base

-- a text of digits in a base, at least one of them
abbrev natural : ℕ → Text → Option ℕ
natural base s =
    if not (length s == 0) && every (below base) s then some (value_in base 0 s) else none

abbrev positive : Option ℕ → Option ℤ
positive none = none
positive (some n) = some (pos n)

abbrev negative : Option ℕ → Option ℤ
negative (some (suc n)) = some (negsuc n)
negative (some zero) = some (pos zero)
negative none = none

abbrev prefixed : ℕ → Text → Text → Option ℤ
prefixed p digits whole =
    if p == b'x'
    then positive (natural 16 digits)
    else if p == b'o'
    then positive (natural 8 digits)
    else if p == b'b'
    then positive (natural 2 digits)
    else positive (natural 10 whole)

-- the text without the white space around it, in lower case
abbrev from_trimmed : Text → Option ℤ
from_trimmed [] = some (pos 0)
from_trimmed (c ∷ []) = positive (natural 10 (c ∷ []))
from_trimmed (c ∷ p ∷ s) =
    if c == b'-'
    then negative (natural 10 (p ∷ s))
    else if c == b'+'
    then positive (natural 10 (p ∷ s))
    else if c == b'0'
    then prefixed p s (c ∷ p ∷ s)
    else positive (natural 10 (c ∷ p ∷ s))

-- `BigInt(text)`; `none` where it throws
unfoldable pub big_int : Text → Option ℤ
unfolding trim to_lower value_in hex_value
big_int s = from_trimmed (map to_lower (trim s))

-- `n.toString()`
unfoldable pub print_int : ℤ → Text
unfolding to_decimal
print_int (pos n) = to_decimal n
print_int (negsuc n) = b'-' ∷ to_decimal (suc n)
