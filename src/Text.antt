-- ===== src/Text.antt =====
-- Texts that the source walks character by character, as lists of code points: trimming, hexadecimal
-- digits and lower case, and the normalisation of consensus addresses
-- (apps/indexer/src/projections/coreslot-temporal-map.ts).
pub mod Laws
pub mod Integers
use Prim.Native.Char.{code}
use twilight_core_explorer.Common.{
  ℕ, ◌+◌, String, Bool, true, false, ◌&&◌, ◌||◌, Option, none, some, List, [], ◌∷◌, ◌++◌, map, ltb,
  leb, ◌==◌, length, every, if◌then◌else◌,
}

abbrev pub Text : Type 0
Text = List ℕ

abbrev pub codes : String → Text
codes String.[] = []
codes (String.◌∷◌ c s) = code c ∷ codes s

-- `a === b` on strings.
abbrev pub eq_text : Text → Text → Bool
eq_text [] [] = true
eq_text [] (d ∷ t) = false
eq_text (c ∷ s) [] = false
eq_text (c ∷ s) (d ∷ t) = let rest = eq_text s t in elim (c == d) [ true ↦ rest | false ↦ false ]

-- The white space and line ends that `String.prototype.trim` removes.
unfoldable pub is_space : ℕ → Bool
is_space c =
    (leb 9 c && leb c 13)
    || c == 32
    || c == 160
    || c == 5760
    || (leb 8192 c && leb c 8202)
    || c == 8232
    || c == 8233
    || c == 8239
    || c == 8287
    || c == 12288
    || c == 65279

unfoldable pub trim_start : Text → Text
unfolding is_space
trim_start [] = []
trim_start (c ∷ s) = let rest = trim_start s in if is_space c then rest else c ∷ s

keep_char : ℕ → Text → Text
unfolding is_space
keep_char c [] = if is_space c then [] else c ∷ []
keep_char c (d ∷ t) = c ∷ d ∷ t

unfoldable pub trim_end : Text → Text
unfolding keep_char
trim_end [] = []
trim_end (c ∷ s) = keep_char c (trim_end s)

-- `value.trim()`
unfoldable pub trim : Text → Text
unfolding trim_start trim_end
trim s = trim_end (trim_start s)

abbrev pub is_digit : ℕ → Bool
is_digit c = leb b'0' c && leb c b'9'

-- `[0-9a-f]`
abbrev pub is_lower_hex : ℕ → Bool
is_lower_hex c = is_digit c || (leb b'a' c && leb c b'f')

-- `[0-9a-fA-F]`
abbrev pub is_hex : ℕ → Bool
is_hex c = is_lower_hex c || (leb b'A' c && leb c b'F')

-- `toLowerCase` on ASCII. Other letters whose lower case is ASCII (the Kelvin sign) have none that
-- is a hexadecimal digit, and the source lowers only texts that it compares with such digits.
unfoldable pub to_lower : ℕ → ℕ
to_lower c = if leb b'A' c && leb c b'Z' then c + 32 else c

pub data Normalized : Type 0 where
  ok : Text → Normalized
  invalid : Normalized

-- `normalizeConsensusAddress`: null, the empty text and what is not 40 hexadecimal digits is refused.
unfoldable pub normalize_consensus_address : Option Text → Normalized
unfolding trim to_lower
normalize_consensus_address none = invalid
normalize_consensus_address (some []) = invalid
normalize_consensus_address (some (c ∷ s)) =
    let trimmed = trim (c ∷ s) in
    if length trimmed == 40 && every is_hex trimmed then ok (map to_lower trimmed) else invalid

pub data OptionalNormalized : Type 0 where
  absent : OptionalNormalized
  present : Text → OptionalNormalized
  malformed : OptionalNormalized

abbrev as_optional : Normalized → OptionalNormalized
as_optional (ok a) = present a
as_optional invalid = malformed

-- `normalizeOptionalConsensusAddress`: null and blank text are no address.
unfoldable pub normalize_optional_consensus_address : Option Text → OptionalNormalized
unfolding trim normalize_consensus_address
normalize_optional_consensus_address none = absent
normalize_optional_consensus_address (some s) =
    if length (trim s) == 0 then absent else as_optional (normalize_consensus_address (some s))
