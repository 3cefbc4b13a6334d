-- ===== src/Draw/Params/Accepted.antt =====
-- Published parameters that are accepted are bounded, so their digest's bytes determine them.
use twilight_core_explorer.Common.{
  ℕ, ◌≤◌, ◌<◌, ◌^◌, ◌≡◌, ◌≢◌, ◌==◌, refl, ap, subst, Bool, true, false, not, ◌&&◌, Option, none,
  some, String, List, [], ◌∷◌, arith, leb, length, every, Bool-cases, inl, inr, if◌then◌else◌,
}
use twilight_core_explorer.Text.{Text, is_digit}
use twilight_core_explorer.Json.{Json, null, bool, num, other_num, str, arr, obj, get}
use twilight_core_explorer.Draw.Bytes.{
  to_bounded_big, bounded_text, is_digits, max_uint_digits, decimal_from, to_decimal,
  max_safe_integer,
}
use twilight_core_explorer.Draw.Bytes.Laws.{decimal-lt}
use twilight_core_explorer.Draw.Params.{
  DrawParameters, Parsed, parsed, refused, ◌>>=◌, is_large_uint, number_or_refuse, parse_field,
  parse_flag, parse_values, parse_parameters, parse_object, is_object, run_rules, rules, Rule,
  validate,
}
use twilight_core_explorer.Draw.Params.Preimage.{params_preimage}
use twilight_core_explorer.Draw.Params.Binding.{IsBounded, params_preimage-injective}

if-eq-some : (t : Bool) (m n : ℕ) → (if t then some m else none) ≡ some n → (t ≡ true) × (m ≡ n)
if-eq-some true m n h = (refl, ground arith)
if-eq-some false m n h = ground arith

digits_parts :
    (a b : Bool) (k : ℕ) → (a && b && leb k max_uint_digits) ≡ true → (b ≡ true) × (k ≤ 12)
digits_parts a b k e = ground arith

bounded_text-lt : (s : Text) (n : ℕ) → bounded_text s ≡ some n → n < 10 ^ 12
bounded_text-lt s n h =
    let (e, same) =
      if-eq-some (is_digits s && leb (length s) max_uint_digits) (decimal_from 0 s) n h in
    let (d, le) = digits_parts (not (length s == 0)) (every is_digit s) (length s) e in
    subst (λ m. m < 10 ^ 12) same (decimal-lt 12 s d le)

safe-bounded_text :
    (t : Bool) (o : Option ℕ) (n : ℕ) → (if t then o else none) ≡ some n → o ≡ some n
safe-bounded_text true o n h = h
safe-bounded_text false o n h = ground arith

to_bounded_big-lt : (v : Option Json) (n : ℕ) → to_bounded_big v ≡ some n → n < 10 ^ 12
unfolding to_bounded_big
to_bounded_big-lt (some (num m)) n h =
    bounded_text-lt (to_decimal m) n (safe-bounded_text (leb m max_safe_integer) _ n h)
to_bounded_big-lt (some (str s)) n h = bounded_text-lt s n h
to_bounded_big-lt none n h = ground arith
to_bounded_big-lt (some null) n h = ground arith
to_bounded_big-lt (some (bool b)) n h = ground arith
to_bounded_big-lt (some other_num) n h = ground arith
to_bounded_big-lt (some (arr vs)) n h = ground arith
to_bounded_big-lt (some (obj fs)) n h = ground arith

number_or_refuse-eq :
    (v : Option Json) (o : Option ℕ) (n : ℕ) → number_or_refuse v o ≡ parsed n → o ≡ some n
number_or_refuse-eq v (some m) n h = ap some (parsed_same m n h)
  where
    parsed_same : (a b : ℕ) → parsed a ≡ parsed b → a ≡ b
    parsed_same a b e = ground arith
number_or_refuse-eq v none n h = elim (Bool-cases (is_large_uint v)) [
  | inl e ↦ absurd (refused_parsed _ _ n (rw e at h))
  | inr e ↦ absurd (refused_parsed _ _ n (rw e at h))
]
  where
    refused_parsed : (r : String) (b : Bool) (m : ℕ) → refused r b ≢ parsed m
    refused_parsed r b m e = ground arith

parse_field-lt :
    (raw : Json) (name : String) (n : ℕ) → parse_field raw name ≡ parsed n → n < 10 ^ 12
unfolding parse_field
parse_field-lt raw name n h =
    to_bounded_big-lt (get name raw) n
      (number_or_refuse-eq (get name raw) (to_bounded_big (get name raw)) n h)

bind-eq-parsed {ℓ κ} :
    {A : Type ℓ} {B : Type κ} (r : Parsed A) (f : A → Parsed B) (b : B)
    → (r >>= f) ≡ parsed b
    → (a : A) × (r ≡ parsed a) × (f a ≡ parsed b)
bind-eq-parsed (parsed a) f b h = (a, refl, h)
bind-eq-parsed (refused reason limit) f b h = ground arith

abbrev value_of : DrawParameters → Parsed DrawParameters → DrawParameters
value_of d (parsed p) = p
value_of d (refused reason limit) = d

parse_values-IsBounded :
    (raw : Json) (p : DrawParameters) → parse_values raw ≡ parsed p → IsBounded p
unfolding parse_values
parse_values-IsBounded raw p h0 =
    let (n1, e1, h1) = bind-eq-parsed (parse_field raw "selection_params_version") _ p h0 in
    let (n2, e2, h2) = bind-eq-parsed (parse_field raw "selection_policy_version") _ p h1 in
    let (n3, e3, h3) = bind-eq-parsed (parse_field raw "selection_rate_bps") _ p h2 in
    let (n4, e4, h4) = bind-eq-parsed (parse_field raw "max_selected_participants") _ p h3 in
    let (n5, e5, h5) =
      bind-eq-parsed (parse_field raw "max_selected_participants_per_selection") _ p h4 in
    let (n6, e6, h6) = bind-eq-parsed (parse_field raw "max_candidates_per_selection") _ p h5 in
    let (n7, e7, h7) = bind-eq-parsed (parse_field raw "beacon_start_offset_blocks") _ p h6 in
    let (n8, e8, h8) = bind-eq-parsed (parse_field raw "beacon_window_blocks") _ p h7 in
    let (n9, e9, h9) = bind-eq-parsed (parse_field raw "chain_min_external_beacon_blocks") _ p h8 in
    let (n10, e10, h10) =
      bind-eq-parsed (parse_field raw "chain_min_distinct_external_proposers") _ p h9 in
    let (n11, e11, h11) = bind-eq-parsed (parse_field raw "min_external_beacon_blocks") _ p h10 in
    let (n12, e12, h12) =
      bind-eq-parsed (parse_field raw "min_distinct_external_proposers") _ p h11 in
    let (flag, e13, h13) = bind-eq-parsed (parse_flag raw) _ p h12 in
    subst IsBounded (ap (value_of p) h13) (record {
      selection_params_version = parse_field-lt raw "selection_params_version" n1 e1;
      selection_policy_version = parse_field-lt raw "selection_policy_version" n2 e2;
      selection_rate_bps = parse_field-lt raw "selection_rate_bps" n3 e3;
      max_selected_participants = parse_field-lt raw "max_selected_participants" n4 e4;
      max_selected_participants_per_selection =
          parse_field-lt raw "max_selected_participants_per_selection" n5 e5;
      max_candidates_per_selection = parse_field-lt raw "max_candidates_per_selection" n6 e6;
      beacon_start_offset_blocks = parse_field-lt raw "beacon_start_offset_blocks" n7 e7;
      beacon_window_blocks = parse_field-lt raw "beacon_window_blocks" n8 e8;
      chain_min_external_beacon_blocks =
          parse_field-lt raw "chain_min_external_beacon_blocks" n9 e9;
      chain_min_distinct_external_proposers =
          parse_field-lt raw "chain_min_distinct_external_proposers" n10 e10;
      min_external_beacon_blocks = parse_field-lt raw "min_external_beacon_blocks" n11 e11;
      min_distinct_external_proposers =
          parse_field-lt raw "min_distinct_external_proposers" n12 e12;
    })

run_rules-same : (rs : List Rule) (q p : DrawParameters) → run_rules rs q ≡ parsed p → q ≡ p
unfolding run_rules
run_rules-same [] q p h = ap (value_of q) h
run_rules-same (r ∷ rs) q p h = ground (arith, run_rules-same rs q p)

-- what is accepted has been read from the fields, and passes the rules
pub parse_object-parts :
    (raw : Option Json) (p : DrawParameters)
    → parse_object raw ≡ parsed p
    → IsBounded p × (validate p ≡ parsed p)
unfolding validate
parse_object-parts none p h = ground arith
parse_object-parts (some raw) p h =
    let (q, read, kept) = bind-eq-parsed (parse_values raw) validate p h in
    let same = run_rules-same (rules q) q p kept in
    (
      subst IsBounded same (parse_values-IsBounded raw q read),
      subst (λ x. validate x ≡ parsed p) same kept,
    )

-- Two published parameter objects that are accepted, with the same bytes to hash, say the same of every
-- parameter.
pub parse_parameters-params_preimage :
    (a b : Option Json) (p q : DrawParameters)
    → parse_parameters a ≡ parsed p
    → parse_parameters b ≡ parsed q
    → params_preimage p ≡ params_preimage q
    → p ≡ q
unfolding parse_parameters
parse_parameters-params_preimage a b p q ha hb e =
    params_preimage-injective p q (parse_object-parts (is_object a) p ha).0
      (parse_object-parts (is_object b) q hb).0 e
