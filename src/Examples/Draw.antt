-- ===== src/Examples/Draw.antt =====
-- A small draw: two candidates, a window of two blocks by another slot, and a record that publishes it.
use twilight_core_explorer.Common.{ℕ, zero, suc, ◌+◌, ◌%◌, String, true, false, some, List, [], ◌∷◌}
use twilight_core_explorer.Text.{Text, codes}
use twilight_core_explorer.Json.{Json, Fields, bool, num, str, arr, obj, nil, cons, end, field}
use twilight_core_explorer.Draw.Bytes.{Bytes, to_hex}
use twilight_core_explorer.Draw.Params.{DrawParameters}
use twilight_core_explorer.Draw.Params.Preimage.{params_preimage}
use twilight_core_explorer.Draw.Beacon.{WindowBlock}
use twilight_core_explorer.Draw.Hashes.{
  Context, Sha256, candidate_set_hash, beacon_hash, selected_draw_ids_hash,
}
use twilight_core_explorer.Draw.Verify.{Input, Env}

abbrev repeat : ℕ → ℕ → Bytes
repeat zero b = []
repeat (suc n) b = b ∷ repeat n b

abbrev total : Bytes → ℕ
total [] = 0
total (b ∷ bs) = b + total bs

-- a stand-in for SHA-256: 32 bytes, the first from all of the input
abbrev pub checksum : Sha256
checksum = record { digest = λ bs. (1 + total bs % 251) ∷ repeat 31 7 }

abbrev pub context : Context
context = record { chain_id = codes "twilight-1"; slot_id = 3; epoch = 9 }

abbrev pub first_id : Bytes
first_id = repeat 32 1

abbrev pub second_id : Bytes
second_id = repeat 32 2

abbrev pub ids : List Bytes
ids = first_id ∷ second_id ∷ []

abbrev pub parameters : DrawParameters
parameters = record {
  selection_params_version = 1;
  selection_policy_version = 2;
  selection_rate_bps = 5000;
  max_selected_participants = 10;
  max_selected_participants_per_selection = 10;
  max_candidates_per_selection = 100;
  beacon_start_offset_blocks = 5;
  beacon_window_blocks = 2;
  chain_min_external_beacon_blocks = 2;
  chain_min_distinct_external_proposers = 1;
  min_external_beacon_blocks = 2;
  min_distinct_external_proposers = 1;
  exclude_target_slot_proposals = true;
}

abbrev named : String → Json → Fields → Fields
named key v fs = field (codes key) v fs

abbrev pub parameters_json : Json
parameters_json = obj (
    named "selection_params_version" (num 1) (
      named "selection_policy_version" (num 2) (
        named "selection_rate_bps" (num 5000) (
          named "max_selected_participants" (num 10) (
            named "max_selected_participants_per_selection" (num 10) (
              named "max_candidates_per_selection" (num 100) (
                named "beacon_start_offset_blocks" (num 5) (
                  named "beacon_window_blocks" (num 2) (
                    named "chain_min_external_beacon_blocks" (num 2) (
                      named "chain_min_distinct_external_proposers" (num 1) (
                        named "min_external_beacon_blocks" (num 2) (
                          named "min_distinct_external_proposers" (num 1)
                            (named "exclude_target_slot_proposals" (bool true) end)))))))))))))

abbrev hash_text : Text
hash_text = to_hex (repeat 32 9)

abbrev block_at : ℕ → WindowBlock
block_at h = record { height = h; hash = some hash_text; proposer_slot_id = some 4 }

abbrev pub window_blocks : List WindowBlock
window_blocks = block_at 105 ∷ block_at 106 ∷ []

abbrev pub set_digest : Bytes
set_digest = candidate_set_hash checksum context ids

abbrev pub params_digest : Bytes
params_digest = checksum.digest (params_preimage parameters)

abbrev hex : Bytes → Json
hex b = str (to_hex b)

abbrev pub memo_json : Json
memo_json = obj (
    named "v" (num 1) (
      named "slot" (num 3) (
        named "epoch" (num 9)
          (named "set" (hex set_digest) (named "params" (hex params_digest) end)))))

abbrev beacon_digest : Bytes
beacon_digest = beacon_hash checksum context set_digest 105 106 (
    record { height = 105; slot = 4; hash = repeat 32 9 }
    ∷ record { height = 106; slot = 4; hash = repeat 32 9 }
    ∷ [])

abbrev beacon_json : Json
beacon_json = obj (
    named "start_height" (num 105) (
      named "end_height" (num 106) (
        named "usable_blocks" (num 2) (
          named "excluded_target_blocks" (num 0) (
            named "unattributable_blocks" (num 0) (
              named "distinct_external_proposers" (num 1)
                (named "admissible" (bool true) (named "hash" (hex beacon_digest) end))))))))

abbrev anchor_json : Json
anchor_json = obj (
    named "committed_set_hash" (hex set_digest)
      (named "committed_params_hash" (hex params_digest) (named "confirmed_height" (num 100) end)))

-- the record, with the winners that it publishes
abbrev pub record_of : Bytes → Json
record_of winner = obj (
    named "version" (num 1) (
      named "chain_id" (str (codes "twilight-1")) (
        named "slot_id" (num 3) (
          named "target_epoch" (num 9) (
            named "parameters" parameters_json (
              named "candidates" (arr (cons (hex first_id) (cons (hex second_id) nil))) (
                named "candidate_set_hash" (hex set_digest) (
                  named "anchor" anchor_json (
                    named "beacon" beacon_json (
                      named "outcome" (str (codes "SUCCESS")) (
                        named "k" (num 1) (
                          named "winners" (arr (cons (hex winner) nil)) (
                            named "selected_draw_ids_hash"
                              (hex (selected_draw_ids_hash checksum context (winner ∷ [])))
                              end)))))))))))))

abbrev pub env : Env
env = record { sha = checksum; parse_json = λ t. some memo_json }

abbrev pub input_of : Bytes → Input
input_of winner = record {
  context = context;
  published = record_of winner;
  anchor = some (record { memo = some (codes "memo"); height = 100 });
  blocks = window_blocks;
  chain_policy = some (record {
    policy_version = some 2;
    selection_rate_bps = some 5000;
    max_selected_participants = some 10;
  });
  policy_projection_behind = false;
}
