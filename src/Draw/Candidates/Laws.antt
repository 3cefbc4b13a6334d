-- ===== src/Draw/Candidates/Laws.antt =====
-- A draw id is read exactly from its lower-case hexadecimal text.
use twilight_core_explorer.Common.{
  zero, every-cons, ◌/◌, ◌%◌, ==_iff, ℕ, suc, ◌*◌, ◌<◌, ◌≡◌, refl, sym, ap, ◌∙◌, ◌↔◌, Bool, true,
  false, ◌&&◌, Option, none, some, List, [], ◌∷◌, All, arith, length, every, ◌==◌, if◌then◌else◌,
}
use twilight_core_explorer.Text.{is_lower_hex}
use twilight_core_explorer.Json.{Json, null, bool, num, other_num, str, arr, obj}
use twilight_core_explorer.Draw.Bytes.{Bytes, to_hex, from_hex, draw_id32, hex_digit, hex_value}
use twilight_core_explorer.Draw.Bytes.Laws.{IsByte, from_hex-to_hex, to_hex-from_hex}

-- A draw id: 32 bytes, not all zero.
pub record IsDrawId (id : Bytes) : Type 0 where
  pub size : length id ≡ 32
  pub bytes : All IsByte id
  pub nonzero : every (λ b. b == 0) id ≡ false

pub length-to_hex : (bs : Bytes) → length (to_hex bs) ≡ length bs * 2
unfolding to_hex
length-to_hex [] = refl
length-to_hex (b ∷ bs) = omega (arith, length-to_hex bs)

hex_digit_lower : (n : ℕ) → n < 16 → is_lower_hex (hex_digit n) ≡ true
unfolding hex_digit
hex_digit_lower n h = ground arith

pub to_hex_lower : (bs : Bytes) → All IsByte bs → every is_lower_hex (to_hex bs) ≡ true
unfolding to_hex
to_hex_lower [] h = refl
to_hex_lower (b ∷ bs) h =
    ground (arith, hex_digit_lower (b / 16), hex_digit_lower (b % 16), to_hex_lower bs h.1, h.0)

hex_value-lt : (c : ℕ) → is_lower_hex c ≡ true → hex_value c < 16
unfolding hex_value
hex_value-lt c h = ground arith

from_hex-bytes :
    (k : ℕ) (s : List ℕ)
    → length s ≡ k * 2
    → every is_lower_hex s ≡ true
    → All IsByte (from_hex s) × (length (from_hex s) ≡ k)
unfolding from_hex
from_hex-bytes k [] e h = (tt, omega arith)
from_hex-bytes k (c ∷ []) e h = absurd (omega arith)
from_hex-bytes zero (c ∷ d ∷ s) e h = absurd (omega arith)
from_hex-bytes (suc k) (c ∷ d ∷ s) e h =
    let a = every-cons is_lower_hex c (d ∷ s) h in
    let b = every-cons is_lower_hex d s a.1 in
    let x = hex_value-lt c a.0 in
    let y = hex_value-lt d b.0 in
    let ih = from_hex-bytes k s (omega arith) b.1 in ((omega arith, ih.0), ap suc ih.1)

-- the tests of `drawId32`
tested : Bool → Bool → Bool → Bytes → Option Bytes
tested a b c x = if a && b then (if c then none else some x) else none

tested_iff :
    (a b c : Bool) (x y : Bytes)
    → (tested a b c x ≡ some y) ↔ ((a ≡ true) × (b ≡ true) × (c ≡ false) × (x ≡ y))
unfolding tested
tested_iff a b c x y = ground arith

draw_id32-tested :
    (s : List ℕ)
    → draw_id32 (str s)
      ≡ tested
          (length s == 64)
          (every is_lower_hex s)
          (every (λ b. b == 0) (from_hex s))
          (from_hex s)
unfolding draw_id32 tested
draw_id32-tested s = refl

-- An entry is read as an id exactly where it is the id's lower-case text.
pub draw_id32_complete : (id : Bytes) → IsDrawId id → draw_id32 (str (to_hex id)) ≡ some id
draw_id32_complete id d =
    draw_id32-tested (to_hex id)
    ∙ (tested_iff _ _ _ _ id).1 (
      (==_iff _ 64).1 (omega (arith, length-to_hex id, d.size)),
      to_hex_lower id d.bytes,
      rw (from_hex-to_hex id d.bytes) d.nonzero,
      from_hex-to_hex id d.bytes,
    )

pub draw_id32_sound :
    (v : Json) (id : Bytes) → draw_id32 v ≡ some id → (v ≡ str (to_hex id)) × IsDrawId id
unfolding draw_id32
draw_id32_sound (str s) id h =
    let (long, lower, nonzero, same) =
      (tested_iff (length s == 64) (every is_lower_hex s) (every (λ b. b == 0) (from_hex s))
          (from_hex s) id).0
        (sym (draw_id32-tested s) ∙ h) in
    let size = (==_iff (length s) 64).0 long in
    let b = from_hex-bytes 32 s size lower in
    rw (← same) (
      ap str (sym (to_hex-from_hex 32 s size lower)),
      record { size = b.1; bytes = b.0; nonzero = nonzero },
    )
draw_id32_sound null id h = cc
draw_id32_sound (bool b) id h = cc
draw_id32_sound (num n) id h = cc
draw_id32_sound other_num id h = cc
draw_id32_sound (arr xs) id h = cc
draw_id32_sound (obj fs) id h = cc
