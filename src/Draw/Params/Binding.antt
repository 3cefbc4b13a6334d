-- ===== src/Draw/Params/Binding.antt =====
-- The bytes that `paramsHashV1` hashes determine the parameters.
use twilight_core_explorer.Common.{append_assoc}
use twilight_core_explorer.Common.{
  ℕ, zero, suc, ◌<◌, ◌^◌, ◌≡◌, refl, sym, ap, ◌∙◌, Bool, true, false, List, [], ◌∷◌, ◌++◌, arith,
  length, All,
}
use twilight_core_explorer.Text.{Text}
use twilight_core_explorer.Draw.Bytes.{Bytes, u32be, to_decimal}
use twilight_core_explorer.Draw.Bytes.Laws.{to_decimal_injective, length-to_decimal}
use twilight_core_explorer.Draw.Params.{DrawParameters}
use twilight_core_explorer.Draw.Params.Preimage.{
  framed, framed_all, flag_text, param_texts, params_preimage,
}
use twilight_core_explorer.Draw.Hashes.Laws.{split-append, length-big_endian, u32be-injective}

abbrev IsShort : Text → Type 0
IsShort t = length t < 4294967296

split-framed :
    (s t : Text) (xs ys : Bytes)
    → IsShort s
    → IsShort t
    → framed s ++ xs ≡ framed t ++ ys
    → (s ≡ t) × (xs ≡ ys)
split-framed s t xs ys hs ht e =
    let e' = rw (append_assoc (u32be (length s)) s xs, append_assoc (u32be (length t)) t ys) at e in
    let (l, rest) =
      split-append (u32be (length s)) (s ++ xs) (u32be (length t)) (t ++ ys)
        (length-big_endian 4 (length s) ∙ sym (length-big_endian 4 (length t))) e' in
    split-append s xs t ys (u32be-injective _ _ hs ht l) rest

framed_all-injective :
    (ss ts : List Text)
    → length ss ≡ length ts
    → All IsShort ss
    → All IsShort ts
    → framed_all ss ≡ framed_all ts
    → ss ≡ ts
unfolding framed_all
framed_all-injective [] [] l h k e = refl
framed_all-injective [] (t ∷ ts) l h k e = absurd (omega (arith, l))
framed_all-injective (s ∷ ss) [] l h k e = absurd (omega (arith, l))
framed_all-injective (s ∷ ss) (t ∷ ts) l h k e =
    let (same, rest) = split-framed s t (framed_all ss) (framed_all ts) h.0 k.0 e in
    let tail = framed_all-injective ss ts (omega (arith, l)) h.1 k.1 rest in
    ap (λ x. x ∷ ss) same ∙ ap (λ xs. t ∷ xs) tail

-- Every number has at most twelve digits, as `toBoundedBig` makes sure.
pub record IsBounded (p : DrawParameters) : Type 0 where
  pub selection_params_version : p.selection_params_version < 10 ^ 12
  pub selection_policy_version : p.selection_policy_version < 10 ^ 12
  pub selection_rate_bps : p.selection_rate_bps < 10 ^ 12
  pub max_selected_participants : p.max_selected_participants < 10 ^ 12
  pub max_selected_participants_per_selection : p.max_selected_participants_per_selection < 10 ^ 12
  pub max_candidates_per_selection : p.max_candidates_per_selection < 10 ^ 12
  pub beacon_start_offset_blocks : p.beacon_start_offset_blocks < 10 ^ 12
  pub beacon_window_blocks : p.beacon_window_blocks < 10 ^ 12
  pub chain_min_external_beacon_blocks : p.chain_min_external_beacon_blocks < 10 ^ 12
  pub chain_min_distinct_external_proposers : p.chain_min_distinct_external_proposers < 10 ^ 12
  pub min_external_beacon_blocks : p.min_external_beacon_blocks < 10 ^ 12
  pub min_distinct_external_proposers : p.min_distinct_external_proposers < 10 ^ 12

decimal-IsShort : (n : ℕ) → n < 10 ^ 12 → IsShort (to_decimal n)
decimal-IsShort n h = let le = length-to_decimal 11 n h in omega (arith, le)

flag-IsShort : (b : Bool) → IsShort (flag_text b)
flag-IsShort true = omega arith
flag-IsShort false = omega arith

flag_text-injective : (a b : Bool) → flag_text a ≡ flag_text b → a ≡ b
flag_text-injective a b e = ground arith

texts-IsShort : (p : DrawParameters) → IsBounded p → All IsShort (param_texts p)
texts-IsShort p b = (
  omega arith,
  (
    decimal-IsShort _ b.selection_params_version,
    (
      decimal-IsShort _ b.selection_policy_version,
      (
        decimal-IsShort _ b.selection_rate_bps,
        (
          decimal-IsShort _ b.max_selected_participants,
          (
            decimal-IsShort _ b.max_selected_participants_per_selection,
            (
              decimal-IsShort _ b.max_candidates_per_selection,
              (
                decimal-IsShort _ b.beacon_start_offset_blocks,
                (
                  decimal-IsShort _ b.beacon_window_blocks,
                  (
                    decimal-IsShort _ b.chain_min_external_beacon_blocks,
                    (
                      decimal-IsShort _ b.chain_min_distinct_external_proposers,
                      (
                        decimal-IsShort _ b.min_external_beacon_blocks,
                        (
                          decimal-IsShort _ b.min_distinct_external_proposers,
                          (flag-IsShort p.exclude_target_slot_proposals, tt),
                        ),
                      ),
                    ),
                  ),
                ),
              ),
            ),
          ),
        ),
      ),
    ),
  ),
)

abbrev nth : ℕ → List Text → Text
nth n [] = []
nth zero (t ∷ ts) = t
nth (suc n) (t ∷ ts) = nth n ts

-- Two accepted sets of parameters with the same bytes to hash are the same, field by field.
pub params_preimage-injective :
    (p q : DrawParameters)
    → IsBounded p
    → IsBounded q
    → params_preimage p ≡ params_preimage q
    → p ≡ q
unfolding params_preimage
params_preimage-injective p q bp bq e =
    let texts =
      framed_all-injective (param_texts p) (param_texts q) refl (texts-IsShort p bp)
        (texts-IsShort q bq) e in
    let same : (n : ℕ) → nth n (param_texts p) ≡ nth n (param_texts q) = λ n. ap (nth n) texts in
    λ i. record {
      selection_params_version = to_decimal_injective _ _ (same 1) i;
      selection_policy_version = to_decimal_injective _ _ (same 2) i;
      selection_rate_bps = to_decimal_injective _ _ (same 3) i;
      max_selected_participants = to_decimal_injective _ _ (same 4) i;
      max_selected_participants_per_selection = to_decimal_injective _ _ (same 5) i;
      max_candidates_per_selection = to_decimal_injective _ _ (same 6) i;
      beacon_start_offset_blocks = to_decimal_injective _ _ (same 7) i;
      beacon_window_blocks = to_decimal_injective _ _ (same 8) i;
      chain_min_external_beacon_blocks = to_decimal_injective _ _ (same 9) i;
      chain_min_distinct_external_proposers = to_decimal_injective _ _ (same 10) i;
      min_external_beacon_blocks = to_decimal_injective _ _ (same 11) i;
      min_distinct_external_proposers = to_decimal_injective _ _ (same 12) i;
      exclude_target_slot_proposals = flag_text-injective _ _ (same 13) i;
    }
