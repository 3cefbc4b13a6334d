-- ===== src/Draw/Verify/Foundation.antt =====
-- The checks of `verifyDraw` before any beacon work: the record's shape, the parameters, the candidate
-- set, the anchor's commitment and the placement of the beacon window.
use twilight_core_explorer.Common.{
  ℕ, String, ◌+◌, ◌-◌, Bool, true, false, not, ◌&&◌, ◌||◌, Option, none, some, List, [], ◌∷◌, ◌++◌,
  any, every, is_some, ltb, leb, ◌==◌, if◌then◌else◌,
}
use twilight_core_explorer.Text.{Text, eq_text}
use twilight_core_explorer.Json.{Json, null, arr, str, get, items, as_text}
use twilight_core_explorer.Draw.Bytes.{Bytes, to_bounded_big, to_hex, hex_eq}
use twilight_core_explorer.Draw.Params.{DrawParameters, Parsed, parsed, refused, parse_parameters}
use twilight_core_explorer.Draw.Params.Preimage.{params_preimage}
use twilight_core_explorer.Draw.Candidates.{parse_candidates}
use twilight_core_explorer.Draw.Memo.{Memo, decode_anchor_memo}
use twilight_core_explorer.Draw.Hashes.{Context, Sha256, candidate_set_hash}
use twilight_core_explorer.Draw.Verify.{
  DrawCheck, check, Caveat, only_two_parameters_compared, policy_not_indexed, thresholds_relaxed,
  Anchor, ChainPolicy, Input, Env, CheckName, record_shape, parameters_valid, parameters_hash,
  parameters_match_chain_policy, candidates_canonical, candidate_set_hash_matches,
  anchor_commitment_on_chain, beacon_window_placement, is_number, is_false,
}

-- `rec(v)[key]`
abbrev pub get_in : String → Option Json → Option Json
get_in key none = none
get_in key (some v) = get key v

abbrev is_string : Option Json → Bool
is_string v = is_some (as_text v)

abbrev is_text : Option Json → Text → Bool
is_text (some (str s)) t = eq_text s t
is_text _ t = false

-- `winners` is `null`, or an array of strings
abbrev winners_well_shaped : Option Json → Bool
winners_well_shaped (some null) = true
winners_well_shaped (some (arr ws)) = every (λ w. is_string (some w)) (items ws)
winners_well_shaped _ = false

abbrev pub winners_of : Input → Option Json
winners_of i = get "winners" i.published

-- The published record describes this chain, slot and epoch, and has every field in its form.
unfoldable pub well_shaped : Input → Bool
unfolding get to_bounded_big
well_shaped i =
    is_number (to_bounded_big (get "version" i.published)) 1
    && is_text (get "chain_id" i.published) i.context.chain_id
    && is_number (to_bounded_big (get "slot_id" i.published)) i.context.slot_id
    && is_number (to_bounded_big (get "target_epoch" i.published)) i.context.epoch
    && winners_well_shaped (winners_of i)
    && is_string (get "candidate_set_hash" i.published)
    && is_string (get "selected_draw_ids_hash" i.published)
    && is_string (get_in "committed_set_hash" (get "anchor" i.published))
    && is_string (get_in "committed_params_hash" (get "anchor" i.published))

-- `parameters_valid`: this explorer's own limit is not the record's fault
abbrev pub parsed_ok : Parsed DrawParameters → Option Bool
parsed_ok (parsed p) = some true
parsed_ok (refused reason true) = none
parsed_ok (refused reason false) = some false

abbrev pub accepted : Parsed DrawParameters → Option DrawParameters
accepted (parsed p) = some p
accepted (refused reason limit) = none

abbrev pub params_hash : Sha256 → Option DrawParameters → Option Bytes
params_hash sha none = none
params_hash sha (some p) = some (sha.digest (params_preimage p))

-- `pol.x === null || pol.x === value`
abbrev agrees : Option ℕ → ℕ → Bool
agrees none n = true
agrees (some m) n = m == n

abbrev pub agrees_with : ChainPolicy → DrawParameters → Bool
agrees_with pol p =
    agrees pol.policy_version p.selection_policy_version
    && agrees pol.selection_rate_bps p.selection_rate_bps
    && agrees pol.max_selected_participants p.max_selected_participants

-- a row that has neither of the two fields says nothing
abbrev indexed_policy : Option ChainPolicy → Option ChainPolicy
indexed_policy none = none
indexed_policy (some pol) =
    if not (is_some pol.selection_rate_bps) && not (is_some pol.max_selected_participants)
    then none
    else some pol

abbrev compare_policy : Option ChainPolicy → DrawParameters → List DrawCheck
compare_policy none p = []
compare_policy (some pol) p = check parameters_match_chain_policy (some (agrees_with pol p)) ∷ []

unfoldable pub policy_checks : Input → Option DrawParameters → List DrawCheck
policy_checks i none = []
policy_checks i (some p) =
    if i.policy_projection_behind
    then check parameters_match_chain_policy none ∷ []
    else compare_policy (indexed_policy i.chain_policy) p

abbrev unindexed : Bool → Option ChainPolicy → List Caveat
unindexed true pol = []
unindexed false none = policy_not_indexed ∷ []
unindexed false (some pol) = []

abbrev relaxed : DrawParameters → Bool
relaxed p =
    ltb p.min_external_beacon_blocks p.chain_min_external_beacon_blocks
    || ltb p.min_distinct_external_proposers p.chain_min_distinct_external_proposers

unfoldable pub parameter_caveats : Input → Option DrawParameters → List Caveat
parameter_caveats i none = []
parameter_caveats i (some p) =
    only_two_parameters_compared
      ∷ unindexed i.policy_projection_behind (indexed_policy i.chain_policy)
    ++ (if relaxed p then thresholds_relaxed ∷ [] else [])

abbrev pub candidates_of : Input → Option DrawParameters → Option (List Bytes)
candidates_of i none = none
candidates_of i (some p) =
    parse_candidates (get "candidates" i.published) p.max_candidates_per_selection

abbrev pub canonical_ok : Option DrawParameters → Option (List Bytes) → Option Bool
canonical_ok none ids = none
canonical_ok (some p) ids = some (is_some ids)

abbrev pub set_hash : Sha256 → Context → Option (List Bytes) → Option Bytes
set_hash sha c none = none
set_hash sha c (some ids) = some (candidate_set_hash sha c ids)

-- `a === null || b === null ? null : a && b`
abbrev pub both : Option Bool → Option Bool → Option Bool
both none b = none
both (some a) none = none
both (some a) (some b) = some (a && b)

-- `hash === null || text === hash.toString('hex')`
abbrev commits : Text → Option Bytes → Bool
commits t none = true
commits t (some b) = eq_text t (to_hex b)

abbrev pub memo_commits : Context → Memo → Option Bytes → Option Bytes → Option ℕ → ℕ → Bool
memo_commits c m set params confirmed height =
    m.slot == c.slot_id
    && m.epoch == c.epoch
    && commits m.set set
    && commits m.params params
    && is_number confirmed height

abbrev pub decoded_ok :
    Context → Option Memo → Option Bytes → Option Bytes → Option ℕ → ℕ → Option Bool
decoded_ok c none set params confirmed height = some false
decoded_ok c (some m) set params confirmed height =
    some (memo_commits c m set params confirmed height)

-- `anchor_commitment_on_chain`
abbrev pub anchor_ok :
    Env → Context → Option Anchor → Option Bytes → Option Bytes → Option ℕ → Option Bool
anchor_ok env c none set params confirmed = none
anchor_ok env c (some a) set params confirmed =
    decoded_ok c (decode_anchor_memo env.parse_json a.memo) set params confirmed a.height

-- `beaconRec`
abbrev pub section_of : Option Json → Option Json
section_of none = none
section_of (some null) = none
section_of (some v) = some v

abbrev pub stands_in_place : DrawParameters → Option ℕ → Option ℕ → Option ℕ → Bool
stands_in_place p (some start) (some end') (some confirmed) =
    leb start end'
    && end' - start + 1 == p.beacon_window_blocks
    && start == confirmed + p.beacon_start_offset_blocks
    && ltb confirmed start
stands_in_place p _ _ _ = false

-- `windowOk`
abbrev pub window_ok :
    Option DrawParameters → Option Json → Option ℕ → Option ℕ → Option ℕ → Option Bool
window_ok none section start end' confirmed = none
window_ok (some p) none start end' confirmed = none
window_ok (some p) (some section) start end' confirmed =
    some (stands_in_place p start end' confirmed)

abbrev pub placement_checks : Option Bool → List DrawCheck
placement_checks none = []
placement_checks (some ok) = check beacon_window_placement (some ok) ∷ []

-- The values that the first part of `verifyDraw` computes.
pub record Foundation : Type 0 where
  pub params : Option DrawParameters
  pub candidates : Option (List Bytes)
  pub set_hash : Option Bytes
  pub section : Option Json
  pub start : Option ℕ
  pub end' : Option ℕ
  pub window : Option Bool
  pub checks : List DrawCheck
  pub caveats : List Caveat

unfoldable pub foundation : Env → Input → Foundation
unfolding get to_bounded_big parse_parameters parse_candidates params_preimage decode_anchor_memo
    hex_eq well_shaped policy_checks parameter_caveats to_hex
foundation env i =
    let anchor = get "anchor" i.published in
    let result = parse_parameters (get "parameters" i.published) in
    let params = accepted result in
    let p_hash = params_hash env.sha params in
    let candidates = candidates_of i params in
    let set = set_hash env.sha i.context candidates in
    let confirmed = to_bounded_big (get_in "confirmed_height" anchor) in
    let section = section_of (get "beacon" i.published) in
    let start = to_bounded_big (get_in "start_height" section) in
    let end' = to_bounded_big (get_in "end_height" section) in
    let window = window_ok params section start end' confirmed in
    record {
      params = params;
      candidates = candidates;
      set_hash = set;
      section = section;
      start = start;
      end' = end';
      window = window;
      checks =
          check record_shape (some (well_shaped i))
            ∷ check parameters_valid (parsed_ok result)
            ∷ check parameters_hash (hex_eq p_hash (get_in "committed_params_hash" anchor))
            ∷ policy_checks i params
          ++ (check candidates_canonical (canonical_ok params candidates)
              ∷ check candidate_set_hash_matches (
                  both (hex_eq set (get "candidate_set_hash" i.published))
                    (hex_eq set (get_in "committed_set_hash" anchor)))
              ∷ check anchor_commitment_on_chain
                  (anchor_ok env i.context i.anchor set p_hash confirmed)
              ∷ placement_checks window);
      caveats = parameter_caveats i params;
    }

abbrev is_foundational : CheckName → Bool
is_foundational record_shape = true
is_foundational candidate_set_hash_matches = true
is_foundational anchor_commitment_on_chain = true
is_foundational parameters_hash = true
is_foundational parameters_valid = true
is_foundational _ = false

-- `foundationBroken`
unfoldable pub broken : List DrawCheck → Bool
broken = any (λ (c : DrawCheck). is_false c.ok && is_foundational c.name)
