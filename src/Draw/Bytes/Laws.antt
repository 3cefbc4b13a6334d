-- ===== src/Draw/Bytes/Laws.antt =====
-- Round trips of the hexadecimal and decimal texts.
use native.Mathlib.Nat.{pow-zero, pow-suc, lt_of_lt_of_le}
use twilight_core_explorer.Common.{
  every-cons, every-append, inl, inr, ℕ, zero, suc, ◌+◌, ◌-◌, ◌*◌, ◌/◌, ◌%◌, ◌^◌, ◌≤◌, ◌<◌, ◌≡◌,
  refl, sym, ap, ◌∙◌, true, false, [], ◌∷◌, ◌++◌, arith, ltb, length, every, All, length-append,
  Bool-cases,
}
use twilight_core_explorer.Text.{Text, is_digit, is_lower_hex}
use twilight_core_explorer.Draw.Bytes.{
  Bytes, hex_digit, hex_value, to_hex, from_hex, decimal_from, decimal_rounds, to_decimal,
}

abbrev pub IsByte : ℕ → Type 0
IsByte b = b < 256

hex_value-digit : (n : ℕ) → n < 16 → hex_value (hex_digit n) ≡ n
unfolding hex_value hex_digit
hex_value-digit n h = ground arith

hex_digit-value : (c : ℕ) → is_lower_hex c ≡ true → hex_digit (hex_value c) ≡ c
unfolding hex_value hex_digit
hex_digit-value c h = ground arith

hex_value-lt : (c : ℕ) → is_lower_hex c ≡ true → hex_value c < 16
unfolding hex_value
hex_value-lt c h = ground arith

-- Bytes survive the way through their hexadecimal text.
pub from_hex-to_hex : (bs : Bytes) → All IsByte bs → from_hex (to_hex bs) ≡ bs
unfolding from_hex to_hex
from_hex-to_hex [] h = refl
from_hex-to_hex (b ∷ bs) h =
    rw
      (
        hex_value-digit (b / 16) (let q = h.0 in omega arith),
        hex_value-digit (b % 16) (omega arith),
        from_hex-to_hex bs h.1,
      )
      (ap (λ x. x ∷ bs) (omega arith))

-- A lower-case hexadecimal text of even length survives the way through its bytes.
pub to_hex-from_hex :
    (k : ℕ) (s : Text) → length s ≡ k * 2 → every is_lower_hex s ≡ true → to_hex (from_hex s) ≡ s
unfolding from_hex to_hex
to_hex-from_hex k [] e h = refl
to_hex-from_hex k (c ∷ []) e h = absurd (omega arith)
to_hex-from_hex zero (c ∷ d ∷ s) e h = absurd (omega arith)
to_hex-from_hex (suc k) (c ∷ d ∷ s) e h = ground (
  arith,
  hex_digit-value c,
  hex_digit-value d,
  hex_value-lt c,
  hex_value-lt d,
  to_hex-from_hex k s,
)

pow_step : (a d p : ℕ) → d ≤ 9 → (a * 10 + d + 1) * p ≤ (a + 1) * (p * 10)
pow_step a d p le = grind arith

digit-le : (c : ℕ) → is_digit c ≡ true → c - b'0' ≤ 9
digit-le c h = ground arith

decimal_from-lt :
    (a : ℕ) (s : Text) → every is_digit s ≡ true → decimal_from a s < (a + 1) * 10 ^ length s
unfolding decimal_from
decimal_from-lt a [] h = rw pow-zero (omega arith)
decimal_from-lt a (c ∷ s) h =
    let d = every-cons is_digit c s h in
    rw pow-suc (
      lt_of_lt_of_le (decimal_from-lt (a * 10 + (c - b'0')) s d.1)
        (pow_step a (c - b'0') (10 ^ length s) (digit-le c d.0)))

pow_mono : (m n : ℕ) → m ≤ n → 10 ^ m ≤ 10 ^ n
pow_mono m zero le = rw (let e : m ≡ 0 = omega arith in e) (omega arith)
pow_mono zero (suc n) le =
    rw (pow-zero, pow-suc) (let ih = rw pow-zero at (pow_mono zero n (omega arith)) in omega arith)
pow_mono (suc m) (suc n) le =
    rw (pow-suc, pow-suc) (let ih = pow_mono m n (omega arith) in omega arith)

-- A text of at most `k` digits names a number below `10 ^ k`.
pub decimal-lt :
    (k : ℕ) (s : Text) → every is_digit s ≡ true → length s ≤ k → decimal_from 0 s < 10 ^ k
decimal-lt k s h le =
    lt_of_lt_of_le (decimal_from-lt 0 s h) (let m = pow_mono (length s) k le in omega arith)

decimal_from-append :
    (a c : ℕ) (s : Text) → decimal_from a (s ++ c ∷ []) ≡ decimal_from a s * 10 + (c - b'0')
unfolding decimal_from
decimal_from-append a c [] = refl
decimal_from-append a c (d ∷ s) = decimal_from-append (a * 10 + (d - b'0')) c s

decimal_rounds_small : (f n : ℕ) → ltb n 10 ≡ true → decimal_rounds (suc f) n ≡ (b'0' + n) ∷ []
unfolding decimal_rounds
decimal_rounds_small f n e = ground arith

decimal_rounds_big :
    (f n : ℕ)
    → ltb n 10 ≡ false
    → decimal_rounds (suc f) n ≡ decimal_rounds f (n / 10) ++ (b'0' + n % 10) ∷ []
unfolding decimal_rounds
decimal_rounds_big f n e = ground arith

decimal_rounds_lem :
    (f n : ℕ)
    → n < f
    → (decimal_from 0 (decimal_rounds f n) ≡ n) × (every is_digit (decimal_rounds f n) ≡ true)
decimal_rounds_lem zero n h = elim h [ ]
decimal_rounds_lem (suc f) n h = elim (Bool-cases (ltb n 10)) [
  | inl small ↦
      rw (decimal_rounds_small f n small) (unfold decimal_from in (ground arith, ground arith))
  | inr big ↦
      let ih = decimal_rounds_lem f (n / 10) (ground arith) in
      rw (decimal_rounds_big f n big) (
        rw (decimal_from-append 0 (b'0' + n % 10) (decimal_rounds f (n / 10)), ih.0) (omega arith),
        every-append is_digit (decimal_rounds f (n / 10)) _ ih.1 (ground arith),
      )
]

-- Printing in decimal and reading back gives the number, and the text is digits alone.
pub decimal_round_trip :
    (n : ℕ) → (decimal_from 0 (to_decimal n) ≡ n) × (every is_digit (to_decimal n) ≡ true)
unfolding to_decimal
decimal_round_trip n = decimal_rounds_lem (suc n) n (omega arith)

-- So numbers with one decimal text are equal.
pub to_decimal_injective : (m n : ℕ) → to_decimal m ≡ to_decimal n → m ≡ n
to_decimal_injective m n e =
    sym (decimal_round_trip m).0 ∙ ap (decimal_from 0) e ∙ (decimal_round_trip n).0

length-decimal_rounds : (k f n : ℕ) → n < 10 ^ suc k → length (decimal_rounds f n) ≤ suc k
unfolding decimal_rounds
length-decimal_rounds k zero n h = omega arith
length-decimal_rounds zero (suc f) n h = elim (Bool-cases (ltb n 10)) [
  | inl small ↦ rw (decimal_rounds_small f n small) (omega arith)
  | inr big ↦ absurd (let h' : n < 10 = h in ground arith)
]
length-decimal_rounds (suc k) (suc f) n h = elim (Bool-cases (ltb n 10)) [
  | inl small ↦ rw (decimal_rounds_small f n small) (omega arith)
  | inr big ↦ rw (decimal_rounds_big f n big) (
      let ih = length-decimal_rounds k f (n / 10) (tenth n (10 ^ suc k) (rw pow-suc at h)) in
      omega (arith, length-append (decimal_rounds f (n / 10)) ((b'0' + n % 10) ∷ [])))
]
  where
    tenth : (x p : ℕ) → x < p * 10 → x / 10 < p
    tenth x p lt = omega arith

-- A number below 10^(k + 1) has at most `k + 1` digits.
pub length-to_decimal : (k n : ℕ) → n < 10 ^ suc k → length (to_decimal n) ≤ suc k
unfolding to_decimal
length-to_decimal k n h = length-decimal_rounds k (suc n) n h
