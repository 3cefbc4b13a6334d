-- ===== src/Examples/Rules.antt =====
-- The rules of a draw at concrete values, and the texts they stand on.
use Prim.Native.Nat.{min, max}
use twilight_core_explorer.Common.{
  ◌*◌, ◌/◌, ◌≤◌, ◌<◌, ◌≡◌, refl, ◌↔◌, true, none, some, All, arith, length, every,
}
use twilight_core_explorer.Text.{is_lower_hex, ok, normalize_consensus_address}
use twilight_core_explorer.Text.Laws.{normalize-canonical}
use twilight_core_explorer.Json.{arr, str, Items, cons, nil, items}
use twilight_core_explorer.Draw.Bytes.{to_hex}
use twilight_core_explorer.Draw.Params.{parsed, validate, parse_parameters}
use twilight_core_explorer.Draw.Params.Laws.{IsSound, validate_iff}
use twilight_core_explorer.Draw.Params.Accepted.{parse_parameters-params_preimage}
use twilight_core_explorer.Draw.Candidates.{parse_candidates, max_candidates}
use twilight_core_explorer.Draw.Candidates.Laws.{IsDrawId}
use twilight_core_explorer.Draw.Candidates.Canonical.{Ascends, id_texts, parse_candidates_iff}
use twilight_core_explorer.Draw.Hashes.{utf8}
use twilight_core_explorer.Draw.Hashes.Laws.{Fits, candidate_set_preimage-injective}
use twilight_core_explorer.Draw.Winners.{winner_count}
use twilight_core_explorer.Draw.Winners.Laws.{winner_count_formula, winner_count_bounds}
use twilight_core_explorer.Examples.Draw.{
  parameters_json, parameters, ids, first_id, second_id, context,
}
use twilight_core_explorer.Examples.Temporal.{address}

winner_count_formula_example :
    (winner_count 0 2500 3 4 ≡ 0)
    × (winner_count 1 2500 3 4 ≡ 1)
    × (2 ≤ 10 → winner_count 10 2500 3 4 ≡ min (min (min (max 1 (10 * 2500 / 10000)) 3) 4) (10 / 2))
winner_count_formula_example = winner_count_formula 10 2500 3 4

winner_count_bounds_example :
    (0 < winner_count 10 2500 3 4)
    × (winner_count 10 2500 3 4 * 2 ≤ 10)
    × (winner_count 10 2500 3 4 ≤ 3)
    × (winner_count 10 2500 3 4 ≤ 4)
winner_count_bounds_example =
    winner_count_bounds 10 2500 3 4 (omega arith) (omega arith) (omega arith)

validate_iff_example : (validate parameters ≡ parsed parameters) ↔ IsSound parameters
validate_iff_example = validate_iff parameters

accepted : parse_parameters (some parameters_json) ≡ parsed parameters
unfolding parse_parameters
accepted = refl

parse_parameters-params_preimage_example : parameters ≡ parameters
parse_parameters-params_preimage_example =
    parse_parameters-params_preimage (some parameters_json) (some parameters_json) parameters
      parameters accepted accepted refl

abbrev entries : Items
entries = cons (str (to_hex first_id)) (cons (str (to_hex second_id)) nil)

parse_candidates_iff_example : (parse_candidates (some (arr entries)) 100 ≡ some ids) ↔ (
    (items entries ≡ id_texts ids)
    × All IsDrawId ids
    × Ascends none ids
    × (length ids ≤ max_candidates)
    × (length ids ≤ 100))
parse_candidates_iff_example = parse_candidates_iff entries 100 ids

context-Fits : Fits context
unfolding utf8
context-Fits = record { chain_id = omega arith; slot_id = omega arith; epoch = omega arith }

candidate_set_preimage-injective_example :
    (utf8 context.chain_id ≡ utf8 context.chain_id)
    × (context.slot_id ≡ context.slot_id)
    × (context.epoch ≡ context.epoch)
    × (ids ≡ ids)
candidate_set_preimage-injective_example =
    candidate_set_preimage-injective context context ids ids context-Fits context-Fits
      (refl, (refl, tt)) (refl, (refl, tt)) (omega arith) (omega arith) refl

address_ok : normalize_consensus_address (some address) ≡ ok address
unfolding normalize_consensus_address
address_ok = refl

normalize-canonical_example : (length address ≡ 40) × (every is_lower_hex address ≡ true)
normalize-canonical_example = normalize-canonical (some address) address address_ok
