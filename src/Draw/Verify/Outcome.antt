-- ===== src/Draw/Verify/Outcome.antt =====
-- The second part of `verifyDraw`: the outcome, the beacon, the winners and their digest, derived again
-- from the candidates and the indexed blocks.
use twilight_core_explorer.Common.{
  ℕ, String, Bool, true, false, not, ◌&&◌, Option, none, some, List, [], ◌∷◌, is_some, length, ltb,
  leb, ◌==◌, if◌then◌else◌,
}
use twilight_core_explorer.Text.{Text, codes, eq_text}
use twilight_core_explorer.Json.{Json, null, bool, arr, str, get, items}
use twilight_core_explorer.Draw.Bytes.{Bytes, to_bounded_big, to_hex, hex_eq}
use twilight_core_explorer.Draw.Params.{DrawParameters}
use twilight_core_explorer.Draw.Beacon.{BeaconComputation, assess_beacon}
use twilight_core_explorer.Draw.Hashes.{
  Context, Sha256, beacon_hash, ticket, selected_draw_ids_hash,
}
use twilight_core_explorer.Draw.Winners.{winner_count, draw_winners}
use twilight_core_explorer.Draw.Verify.{
  DrawCheck, check, Input, beacon_shape, beacon_recomputed, outcome_rederived, winners_redrawn,
  selected_draw_ids_hash_matches, is_number, is_true,
}
use twilight_core_explorer.Draw.Verify.Foundation.{get_in, winners_of}

pub data DrawOutcome : Type 0 where
  no_candidates : DrawOutcome
  success : DrawOutcome
  no_valid_beacon : DrawOutcome

abbrev pub outcome_text : DrawOutcome → String
outcome_text no_candidates = "NO_CANDIDATES"
outcome_text success = "SUCCESS"
outcome_text no_valid_beacon = "NO_VALID_BEACON"

-- What is known after the beacon: its checks, the expected outcome and our own beacon hash.
pub record Derivation : Type 0 where
  pub checks : List DrawCheck
  pub expected : Option DrawOutcome
  pub beacon : Option Bytes

abbrev pub derivation : List DrawCheck → Option DrawOutcome → Option Bytes → Derivation
derivation checks expected beacon = record { checks = checks; expected = expected; beacon = beacon }

-- `expectedAdmissible`
abbrev pub admissible : DrawParameters → BeaconComputation → Bool
admissible p comp =
    leb p.min_external_beacon_blocks comp.usable
    && leb p.min_distinct_external_proposers comp.distinct

abbrev is_bool : Option Json → Bool → Bool
is_bool (some (bool true)) b = b
is_bool (some (bool false)) b = not b
is_bool _ b = false

-- `countsOk`
unfoldable pub counts_ok : Option Json → BeaconComputation → Bool → Bool
unfolding get to_bounded_big
counts_ok section comp ok =
    is_number (to_bounded_big (get_in "usable_blocks" section)) comp.usable
    && is_number (to_bounded_big (get_in "excluded_target_blocks" section)) comp.excluded_target
    && is_number (to_bounded_big (get_in "unattributable_blocks" section)) 0
    && is_number (to_bounded_big (get_in "distinct_external_proposers" section)) comp.distinct
    && is_bool (get_in "admissible" section) ok

abbrev is_null : Option Json → Bool
is_null (some null) = true
is_null _ = false

-- an admissible window: its hash must be published, and is ours only where it is
abbrev pub admissible_window : Bool → Bytes → Bool → Derivation
admissible_window counts ours hash_ok =
    derivation (check beacon_recomputed (some (counts && hash_ok)) ∷ []) (some success)
      (if hash_ok then some ours else none)

abbrev pub inadmissible_window : Bool → Bool → Derivation
inadmissible_window counts null_hash =
    derivation (check beacon_recomputed (some (counts && null_hash)) ∷ []) (some no_valid_beacon)
      none

unfoldable pub assessed :
    Sha256 → Context → DrawParameters → Bytes → Option Json → ℕ → ℕ → BeaconComputation → Derivation
unfolding get hex_eq counts_ok
assessed sha c p set section start end' comp =
    let ours = beacon_hash sha c set start end' comp.entries in
    let ok = admissible p comp in
    let counts = counts_ok section comp ok in
    if ltb 0 comp.missing
    then derivation (check beacon_recomputed none ∷ []) none none
    else if ok
    then admissible_window counts ours (is_true (hex_eq (some ours) (get_in "hash" section)))
    else inadmissible_window counts (is_null (get_in "hash" section))

-- two candidates or more, and no window to assess: a record without a beacon is refused
abbrev pub refuse_missing : Option Json → Derivation
refuse_missing none = derivation (check beacon_recomputed (some false) ∷ []) none none
refuse_missing (some section) = derivation [] none none

unfoldable pub in_place :
    Sha256 → Input → DrawParameters → Bytes → Option Json → Option ℕ → Option ℕ → Derivation
unfolding assess_beacon assessed
in_place sha i p set section (some start) (some end') =
    assessed sha i.context p set section start end'
      (assess_beacon i.blocks start end' i.context.slot_id)
in_place sha i p set section _ _ = refuse_missing section

-- two candidates or more: a window in its place is assessed, and one out of place says nothing
unfoldable pub with_window :
    Sha256
    → Input
    → DrawParameters
    → Bytes
    → Option Json
    → Option ℕ
    → Option ℕ
    → Option Bool
    → Derivation
unfolding in_place
with_window sha i p set section start end' (some true) = in_place sha i p set section start end'
with_window sha i p set section start end' (some false) = derivation [] none none
with_window sha i p set section start end' none = refuse_missing section

-- the expected outcome and its checks, for `n` candidates
unfoldable pub derive_beacon :
    Sha256
    → Input
    → DrawParameters
    → ℕ
    → Bytes
    → Option Json
    → Option ℕ
    → Option ℕ
    → Option Bool
    → Derivation
unfolding assess_beacon get hex_eq counts_ok with_window
derive_beacon sha i p n set section start end' window =
    if n == 0
    then derivation [] (some no_candidates) none
    else if n == 1
    then derivation [] (some success) none
    else with_window sha i p set section start end' window

-- fewer than two candidates must not carry a beacon
abbrev pub shape_checks : ℕ → Option Json → List DrawCheck
shape_checks n section =
    if ltb n 2 && is_some section then check beacon_shape (some false) ∷ [] else []

abbrev pub is_outcome : Option Json → DrawOutcome → Bool
is_outcome (some (str s)) o = eq_text s (codes (outcome_text o))
is_outcome _ o = false

unfoldable pub outcome_checks : Input → Option DrawOutcome → Option Bool → List DrawCheck
unfolding get
outcome_checks i (some o) window =
    check outcome_rederived (some (is_outcome (get "outcome" i.published) o)) ∷ []
outcome_checks i none (some false) = []
outcome_checks i none window = check outcome_rederived none ∷ []

-- `expectedK`
unfoldable pub expected_k : DrawParameters → ℕ → DrawOutcome → ℕ
unfolding winner_count
expected_k p n no_candidates = 0
expected_k p n _ =
    winner_count n p.selection_rate_bps p.max_selected_participants
      p.max_selected_participants_per_selection

-- `expectedWinners`
unfoldable pub redraw :
    Sha256 → Context → Bytes → List Bytes → Option Bytes → ℕ → Option (List Bytes)
unfolding draw_winners
redraw sha c set ids none k = none
redraw sha c set ids (some beacon) k = some (draw_winners (ticket sha c set beacon) k ids)

unfoldable pub expected_winners :
    Sha256 → Context → Bytes → List Bytes → Option Bytes → ℕ → DrawOutcome → Option (List Bytes)
unfolding draw_winners redraw
expected_winners sha c set ids beacon k success =
    if length ids == 1 then some ids else redraw sha c set ids beacon k
expected_winners sha c set ids beacon k _ = some []

abbrev strings : List Json → List Text
strings [] = []
strings (str s ∷ vs) = s ∷ strings vs
strings (_ ∷ vs) = strings vs

-- `published`
abbrev pub published_winners : Option Json → List Text
published_winners (some (arr ws)) = strings (items ws)
published_winners _ = []

-- `published.length === expected.length && expected.every((w, i) => …)`
unfoldable pub same_winners : List Text → List Bytes → Bool
unfolding to_hex
same_winners [] [] = true
same_winners (t ∷ ts) (b ∷ bs) = eq_text (to_hex b) t && same_winners ts bs
same_winners _ _ = false

unfoldable pub winners_against : Sha256 → Input → Bool → Option (List Bytes) → List DrawCheck
unfolding get hex_eq same_winners
winners_against sha i k_ok none = check winners_redrawn (if k_ok then none else some false) ∷ []
winners_against sha i k_ok (some ws) =
    check winners_redrawn (some (k_ok && same_winners (published_winners (winners_of i)) ws))
    ∷ check selected_draw_ids_hash_matches (
        hex_eq (some (selected_draw_ids_hash sha i.context ws))
          (get "selected_draw_ids_hash" i.published))
    ∷ []

unfoldable pub winner_checks :
    Sha256
    → Input
    → DrawParameters
    → List Bytes
    → Bytes
    → Option Bytes
    → Option DrawOutcome
    → List DrawCheck
unfolding get to_bounded_big winner_count draw_winners hex_eq same_winners expected_k
    expected_winners winners_against
winner_checks sha i p ids set beacon none = []
winner_checks sha i p ids set beacon (some o) =
    winners_against sha i
      (is_number (to_bounded_big (get "k" i.published)) (expected_k p (length ids) o))
      (expected_winners sha i.context set ids beacon (expected_k p (length ids) o) o)
