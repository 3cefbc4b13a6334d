-- ===== src/Ingest/Events/Keys.antt =====
-- The key of an event's row says which event it is.
use twilight_core_explorer.Common.{
  ℕ, ◌≡◌, ◌≢◌, refl, sym, ap, ◌∙◌, Bool, true, not, Option, none, some, [], ◌∷◌, ◌++◌, with_default,
  length, if◌then◌else◌, ◌==◌, every, arith,
}
use twilight_core_explorer.Text.{Text, codes, is_digit}
use twilight_core_explorer.Draw.Bytes.{to_decimal}
use twilight_core_explorer.Draw.Bytes.Laws.{decimal_round_trip, to_decimal_injective}
use twilight_core_explorer.Ingest.Events.{
  EventPhase, begin_block, end_block, finalize_block, tx, phase_text, key_of,
}

-- no colon in the text
abbrev pub plain : Text → Bool
plain = every (λ c. not (c == b':'))

cons-parts : {c d : ℕ} {s t : Text} → c ∷ s ≡ d ∷ t → (c ≡ d) × (s ≡ t)
cons-parts e = (cc, cc)

plain-parts : (c : ℕ) (s : Text) → plain (c ∷ s) ≡ true → (c ≢ b':') × (plain s ≡ true)
plain-parts c s e = (λ h. ground arith, ground arith)

-- two texts that go on after their first colon
split_colon :
    (s t x y : Text)
    → plain s ≡ true
    → plain t ≡ true
    → s ++ (b':' ∷ x) ≡ t ++ (b':' ∷ y)
    → (s ≡ t) × (x ≡ y)
split_colon [] [] x y p q e = (refl, (cons-parts e).1)
split_colon [] (d ∷ t) x y p q e = absurd ((plain-parts d t q).0 (sym (cons-parts e).0))
split_colon (c ∷ s) [] x y p q e = absurd ((plain-parts c s p).0 (cons-parts e).0)
split_colon (c ∷ s) (d ∷ t) x y p q e =
    let (h, rest) = cons-parts e in
    let (r, z) = split_colon s t x y (plain-parts c s p).1 (plain-parts d t q).1 rest in
    (ap (λ k. k ∷ s) h ∙ ap (λ k. d ∷ k) r, z)

digits-plain : (s : Text) → every is_digit s ≡ true → plain s ≡ true
digits-plain [] e = refl
digits-plain (c ∷ s) e = ground (arith, digits-plain s)

phase-plain : (p : EventPhase) → plain (phase_text p) ≡ true
phase-plain begin_block = refl
phase-plain end_block = refl
phase-plain finalize_block = refl
phase-plain tx = refl

-- the text's length tells the phase
phase_of_length : Text → EventPhase
phase_of_length s =
    if length s == 2
    then tx
    else if length s == 9
    then end_block
    else if length s == 11
    then begin_block
    else finalize_block

phase_round_trip : (p : EventPhase) → phase_of_length (phase_text p) ≡ p
unfolding phase_of_length
phase_round_trip begin_block = refl
phase_round_trip end_block = refl
phase_round_trip finalize_block = refl
phase_round_trip tx = refl

phase_text-injective : (p q : EventPhase) → phase_text p ≡ phase_text q → p ≡ q
phase_text-injective p q e = sym (phase_round_trip p) ∙ ap phase_of_length e ∙ phase_round_trip q

-- A transaction's hash as it stands in a key: no colon, and not the text `none`.
abbrev pub IsKeyText : Option Text → Type 0
IsKeyText none = Unit {0}
IsKeyText (some h) = (plain h ≡ true) × (h ≢ codes "none")

hash-plain : (o : Option Text) → IsKeyText o → plain (with_default o (codes "none")) ≡ true
hash-plain none k = refl
hash-plain (some h) k = k.0

hash-injective :
    (o p : Option Text)
    → IsKeyText o
    → IsKeyText p
    → with_default o (codes "none") ≡ with_default p (codes "none")
    → o ≡ p
hash-injective none none k l e = refl
hash-injective none (some h) k l e = absurd (l.1 (sym e))
hash-injective (some h) none k l e = absurd (k.1 e)
hash-injective (some h) (some g) k l e = ap some e

-- Where the hashes are key texts, two events with one key are one: of one height, phase and transaction,
-- with one index.
pub key_of-injective :
    (h₁ h₂ : ℕ) (p₁ p₂ : EventPhase) (o₁ o₂ : Option Text) (i₁ i₂ : ℕ)
    → IsKeyText o₁
    → IsKeyText o₂
    → key_of h₁ p₁ o₁ i₁ ≡ key_of h₂ p₂ o₂ i₂
    → (h₁ ≡ h₂) × (p₁ ≡ p₂) × (o₁ ≡ o₂) × (i₁ ≡ i₂)
unfolding key_of
key_of-injective h₁ h₂ p₁ p₂ o₁ o₂ i₁ i₂ k₁ k₂ e =
    let (same_height, e₁) =
      split_colon (to_decimal h₁) (to_decimal h₂) _ _
        (digits-plain (to_decimal h₁) (decimal_round_trip h₁).1)
        (digits-plain (to_decimal h₂) (decimal_round_trip h₂).1) e in
    let (same_phase, e₂) =
      split_colon (phase_text p₁) (phase_text p₂) _ _ (phase-plain p₁) (phase-plain p₂) e₁ in
    let (same_hash, e₃) = split_colon _ _ _ _ (hash-plain o₁ k₁) (hash-plain o₂ k₂) e₂ in
    (
      to_decimal_injective h₁ h₂ same_height,
      phase_text-injective p₁ p₂ same_phase,
      hash-injective o₁ o₂ k₁ k₂ same_hash,
      to_decimal_injective i₁ i₂ e₃,
    )
