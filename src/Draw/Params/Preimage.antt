-- ===== src/Draw/Params/Preimage.antt =====
-- `paramsHashV1` of draw-verify.ts: the bytes that are hashed for the parameters.
use twilight_core_explorer.Common.{String, Bool, true, false, List, [], ◌∷◌, ◌++◌, length}
use twilight_core_explorer.Text.{Text, codes}
use twilight_core_explorer.Draw.Bytes.{Bytes, u32be, to_decimal}
use twilight_core_explorer.Draw.Params.{DrawParameters}

abbrev pub params_version_tag : String
params_version_tag = "TWILIGHT_MINIS_DRAW_PARAMETERS_HASH_V1"

-- `field` of `paramsHashV1`
abbrev pub framed : Text → Bytes
framed v = u32be (length v) ++ v

abbrev pub flag_text : Bool → Text
flag_text true = codes "1"
flag_text false = codes "0"

-- the texts that `paramsHashV1` frames, in order
abbrev pub param_texts : DrawParameters → List Text
param_texts p =
    codes params_version_tag
    ∷ to_decimal p.selection_params_version
    ∷ to_decimal p.selection_policy_version
    ∷ to_decimal p.selection_rate_bps
    ∷ to_decimal p.max_selected_participants
    ∷ to_decimal p.max_selected_participants_per_selection
    ∷ to_decimal p.max_candidates_per_selection
    ∷ to_decimal p.beacon_start_offset_blocks
    ∷ to_decimal p.beacon_window_blocks
    ∷ to_decimal p.chain_min_external_beacon_blocks
    ∷ to_decimal p.chain_min_distinct_external_proposers
    ∷ to_decimal p.min_external_beacon_blocks
    ∷ to_decimal p.min_distinct_external_proposers
    ∷ flag_text p.exclude_target_slot_proposals
    ∷ []

unfoldable pub framed_all : List Text → Bytes
framed_all [] = []
framed_all (t ∷ ts) = framed t ++ framed_all ts

-- the bytes that `paramsHashV1` hashes
unfoldable pub params_preimage : DrawParameters → Bytes
unfolding framed_all
params_preimage p = framed_all (param_texts p)
