-- ===== src/Text/Laws.antt =====
-- Laws of texts: equality, and what a normalised consensus address is.
use twilight_core_explorer.Common.{
  ℕ, ◌≡◌, refl, ◌↔◌, true, Option, some, [], ◌∷◌, map, arith, length, every, length-map,
}
use twilight_core_explorer.Text.{
  Text, eq_text, is_lower_hex, is_hex, to_lower, trim, ok, normalize_consensus_address,
}

pub eq_text_iff : (s t : Text) → (eq_text s t ≡ true) ↔ (s ≡ t)
eq_text_iff [] [] = ground arith
eq_text_iff [] (d ∷ t) = ground arith
eq_text_iff (c ∷ s) [] = ground arith
eq_text_iff (c ∷ s) (d ∷ t) = ground (arith, eq_text_iff s t)

pub eq_text_refl : (s : Text) → eq_text s s ≡ true
eq_text_refl s = (eq_text_iff s s).1 refl

to_lower-hex : (c : ℕ) → is_hex c ≡ true → is_lower_hex (to_lower c) ≡ true
unfolding to_lower
to_lower-hex c h = ground arith

every-to_lower : (s : Text) → every is_hex s ≡ true → every is_lower_hex (map to_lower s) ≡ true
every-to_lower [] h = refl
every-to_lower (c ∷ s) h = ground (arith, to_lower-hex c, every-to_lower s)

to_lower_lower : (c : ℕ) → is_lower_hex c ≡ true → to_lower c ≡ c
unfolding to_lower
to_lower_lower c h = ground arith

-- An accepted address is 40 lower-case hexadecimal digits, whatever was given.
pub normalize-canonical :
    (v : Option Text) (a : Text)
    → normalize_consensus_address v ≡ ok a
    → (length a ≡ 40) × (every is_lower_hex a ≡ true)
unfolding normalize_consensus_address
normalize-canonical (some (c ∷ s)) a h =
    ground (arith, length-map to_lower (trim (c ∷ s)), every-to_lower (trim (c ∷ s)))
normalize-canonical _ a h = ground arith
