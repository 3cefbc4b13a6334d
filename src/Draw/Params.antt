-- ===== src/Draw/Params.antt =====
-- `parseParameters` of draw-verify.ts.
pub mod Preimage
pub mod Laws
pub mod Binding
pub mod Accepted
use twilight_core_explorer.Common.{
  ℕ, ◌+◌, String, Bool, true, false, ◌&&◌, ◌||◌, Option, none, some, List, [], ◌∷◌, ◌++◌, ltb, leb,
  ◌==◌, length, every, if◌then◌else◌,
}
use twilight_core_explorer.Text.{Text, codes}
use twilight_core_explorer.Json.{Json, null, bool, num, str, arr, obj, get}
use twilight_core_explorer.Draw.Bytes.{Bytes, u32be, to_decimal, to_bounded_big, is_digits}

-- `MAX_WINDOW_BLOCKS`
abbrev pub max_window_blocks : ℕ
max_window_blocks = 2048

-- `DrawParameters`, the values by the names of `PARAM_FIELD_ORDER`
pub record DrawParameters : Type 0 where
  pub selection_params_version : ℕ
  pub selection_policy_version : ℕ
  pub selection_rate_bps : ℕ
  pub max_selected_participants : ℕ
  pub max_selected_participants_per_selection : ℕ
  pub max_candidates_per_selection : ℕ
  pub beacon_start_offset_blocks : ℕ
  pub beacon_window_blocks : ℕ
  pub chain_min_external_beacon_blocks : ℕ
  pub chain_min_distinct_external_proposers : ℕ
  pub min_external_beacon_blocks : ℕ
  pub min_distinct_external_proposers : ℕ
  pub exclude_target_slot_proposals : Bool

-- A refusal carries its reason, without the numbers that the source prints into it, and says whether
-- it is this explorer's own limit.
pub data Parsed {ℓ} (A : Type ℓ) : Type ℓ where
  parsed : A → Parsed A
  refused : (reason : String) (explorer_limit : Bool) → Parsed A

infixl 5 ◌>>=◌
abbrev pub ◌>>=◌ {ℓ κ} : {A : Type ℓ} {B : Type κ} → Parsed A → (A → Parsed B) → Parsed B
parsed a >>= f = f a
refused reason limit >>= f = refused reason limit

-- `isLargeUint`
abbrev pub is_large_uint : Option Json → Bool
is_large_uint (some (str s)) = is_digits s
is_large_uint (some (num n)) = true
is_large_uint _ = false

abbrev pub number_or_refuse : Option Json → Option ℕ → Parsed ℕ
number_or_refuse field (some v) = parsed v
number_or_refuse field none =
    if is_large_uint field
    then refused "beyond what this explorer can verify exactly" true
    else refused "missing or not an unsigned integer" false

-- one round of the loop over `PARAM_FIELD_ORDER`
unfoldable pub parse_field : Json → String → Parsed ℕ
unfolding to_bounded_big get
parse_field raw name = number_or_refuse (get name raw) (to_bounded_big (get name raw))

abbrev flag_or_refuse : Option Json → Parsed Bool
flag_or_refuse (some (bool b)) = parsed b
flag_or_refuse _ = refused "exclude_target_slot_proposals is not a boolean" false

unfoldable pub parse_flag : Json → Parsed Bool
unfolding get
parse_flag raw = flag_or_refuse (get "exclude_target_slot_proposals" raw)

-- the loop over `PARAM_FIELD_ORDER`, and the flag
unfoldable pub parse_values : Json → Parsed DrawParameters
unfolding parse_field parse_flag
parse_values raw = do
  params_version ← parse_field raw "selection_params_version"
  policy_version ← parse_field raw "selection_policy_version"
  rate ← parse_field raw "selection_rate_bps"
  max_selected ← parse_field raw "max_selected_participants"
  max_per_selection ← parse_field raw "max_selected_participants_per_selection"
  max_candidates ← parse_field raw "max_candidates_per_selection"
  offset ← parse_field raw "beacon_start_offset_blocks"
  window ← parse_field raw "beacon_window_blocks"
  chain_blocks ← parse_field raw "chain_min_external_beacon_blocks"
  chain_proposers ← parse_field raw "chain_min_distinct_external_proposers"
  blocks ← parse_field raw "min_external_beacon_blocks"
  proposers ← parse_field raw "min_distinct_external_proposers"
  flag ← parse_flag raw
  parsed (record {
    selection_params_version = params_version;
    selection_policy_version = policy_version;
    selection_rate_bps = rate;
    max_selected_participants = max_selected;
    max_selected_participants_per_selection = max_per_selection;
    max_candidates_per_selection = max_candidates;
    beacon_start_offset_blocks = offset;
    beacon_window_blocks = window;
    chain_min_external_beacon_blocks = chain_blocks;
    chain_min_distinct_external_proposers = chain_proposers;
    min_external_beacon_blocks = blocks;
    min_distinct_external_proposers = proposers;
    exclude_target_slot_proposals = flag;
  })

-- `if (fails) return { params: null, reason, explorerLimit }`
pub record Rule : Type 0 where
  pub fails : Bool
  pub reason : String
  pub explorer_limit : Bool

unfoldable pub run_rules : List Rule → DrawParameters → Parsed DrawParameters
run_rules [] p = parsed p
run_rules (r ∷ rs) p =
    let rest = run_rules rs p in if r.fails then refused r.reason r.explorer_limit else rest

-- the bounds that follow the loop, in the order of the source
abbrev pub rules : DrawParameters → List Rule
rules p =
    record {
      fails = p.selection_rate_bps == 0 || ltb 5000 p.selection_rate_bps;
      reason = "selection_rate_bps outside (0, 5000]";
      explorer_limit = false;
    }
    ∷ record {
      fails = p.max_selected_participants == 0;
      reason = "max_selected_participants is 0";
      explorer_limit = false;
    }
    ∷ record {
      fails = p.max_selected_participants_per_selection == 0;
      reason = "max_selected_participants_per_selection is 0";
      explorer_limit = false;
    }
    ∷ record {
      fails = p.selection_params_version == 0;
      reason = "no selection_params_version";
      explorer_limit = false;
    }
    ∷ record {
      fails = p.selection_policy_version == 0;
      reason = "no selection_policy_version";
      explorer_limit = false;
    }
    ∷ record {
      fails = p.beacon_start_offset_blocks == 0;
      reason = "beacon_start_offset_blocks is 0";
      explorer_limit = false;
    }
    ∷ record {
      fails = p.beacon_window_blocks == 0;
      reason = "beacon_window_blocks is 0";
      explorer_limit = false;
    }
    ∷ record {
      fails = ltb max_window_blocks p.beacon_window_blocks;
      reason = "beacon_window_blocks above the verification cap";
      explorer_limit = true;
    }
    ∷ record {
      fails = p.max_candidates_per_selection == 0;
      reason = "max_candidates_per_selection is 0";
      explorer_limit = false;
    }
    ∷ record {
      fails =
          p.chain_min_external_beacon_blocks == 0 || p.chain_min_distinct_external_proposers == 0;
      reason = "the chain's own thresholds are not recorded";
      explorer_limit = false;
    }
    ∷ record {
      fails = ltb p.chain_min_external_beacon_blocks p.min_external_beacon_blocks;
      reason = "applied min_external_beacon_blocks exceeds the chain's";
      explorer_limit = false;
    }
    ∷ record {
      fails = ltb p.chain_min_distinct_external_proposers p.min_distinct_external_proposers;
      reason = "applied min_distinct_external_proposers exceeds the chain's";
      explorer_limit = false;
    }
    ∷ record {
      fails = p.min_external_beacon_blocks == 0;
      reason = "min_external_beacon_blocks is 0";
      explorer_limit = false;
    }
    ∷ record {
      fails = p.min_distinct_external_proposers == 0;
      reason = "min_distinct_external_proposers is 0";
      explorer_limit = false;
    }
    ∷ record {
      fails = ltb p.min_external_beacon_blocks p.min_distinct_external_proposers;
      reason = "min_distinct_external_proposers exceeds min_external_beacon_blocks";
      explorer_limit = false;
    }
    ∷ record {
      fails = ltb p.beacon_window_blocks p.min_external_beacon_blocks;
      reason = "min_external_beacon_blocks exceeds the window length";
      explorer_limit = false;
    }
    ∷ record {
      fails = if p.exclude_target_slot_proposals then false else true;
      reason = "exclude_target_slot_proposals is false";
      explorer_limit = false;
    }
    ∷ []

unfoldable pub validate : DrawParameters → Parsed DrawParameters
unfolding run_rules
validate p = run_rules (rules p) p

-- `typeof raw !== 'object' || raw === null`
abbrev pub is_object : Option Json → Option Json
is_object (some (obj fs)) = some (obj fs)
is_object (some (arr xs)) = some (arr xs)
is_object _ = none

abbrev pub parse_object : Option Json → Parsed DrawParameters
parse_object none = refused "parameters absent" false
parse_object (some raw) = do p ← parse_values raw; validate p

-- `parseParameters`
unfoldable pub parse_parameters : Option Json → Parsed DrawParameters
unfolding parse_values validate
parse_parameters raw = parse_object (is_object raw)
