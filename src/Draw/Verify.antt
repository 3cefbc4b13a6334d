-- ===== src/Draw/Verify.antt =====
-- The inputs, checks and verdict of `verifyDraw` in draw-verify.ts. The texts that explain a check are
-- left out; a caveat is named by what it says.
pub mod Foundation
pub mod Outcome
pub mod Run
pub mod Laws
pub mod Redrawn
pub mod Placed
pub mod Verified
use twilight_core_explorer.Common.{
  ℕ, Bool, true, false, not, ◌&&◌, ◌||◌, Option, none, some, List, [], ◌∷◌, every, any, ◌==◌,
  if◌then◌else◌,
}
use twilight_core_explorer.Text.{Text}
use twilight_core_explorer.Json.{Json}
use twilight_core_explorer.Draw.Beacon.{WindowBlock}
use twilight_core_explorer.Draw.Hashes.{Context, Sha256}

-- The names under which the checks are pushed.
pub data CheckName : Type 0 where
  context_available : CheckName
  record_shape : CheckName
  parameters_valid : CheckName
  parameters_hash : CheckName
  parameters_match_chain_policy : CheckName
  candidates_canonical : CheckName
  candidate_set_hash_matches : CheckName
  anchor_commitment_on_chain : CheckName
  beacon_window_placement : CheckName
  beacon_shape : CheckName
  beacon_recomputed : CheckName
  outcome_rederived : CheckName
  winners_redrawn : CheckName
  selected_draw_ids_hash_matches : CheckName

-- `DrawCheck`; `ok` is `none` for the `null` of the source
pub record DrawCheck : Type 0 where
  pub name : CheckName
  pub ok : Option Bool

abbrev pub check : CheckName → Option Bool → DrawCheck
check name ok = record { name = name; ok = ok }

pub data Caveat : Type 0 where
  single_anchor_not_checked : Caveat
  only_two_parameters_compared : Caveat
  policy_not_indexed : Caveat
  thresholds_relaxed : Caveat

pub data Verdict : Type 0 where
  verified : Verdict
  mismatch : Verdict
  unverifiable : Verdict

pub record DrawVerification : Type 0 where
  pub result : Verdict
  pub checks : List DrawCheck
  pub caveats : List Caveat

pub record Anchor : Type 0 where
  pub memo : Option Text
  pub height : ℕ

pub record ChainPolicy : Type 0 where
  pub policy_version : Option ℕ
  pub selection_rate_bps : Option ℕ
  pub max_selected_participants : Option ℕ

-- The argument of `verifyDraw`; `published` is its `record`.
pub record Input : Type 0 where
  pub context : Context
  pub published : Json
  pub anchor : Option Anchor
  pub blocks : List WindowBlock
  pub chain_policy : Option ChainPolicy
  pub policy_projection_behind : Bool

-- What the code calls: `sha256` of node:crypto and `JSON.parse`.
pub record Env : Type 0 where
  pub sha : Sha256
  pub parse_json : Text → Option Json

abbrev pub is_false : Option Bool → Bool
is_false (some b) = not b
is_false none = false

abbrev pub is_true : Option Bool → Bool
is_true (some b) = b
is_true none = false

abbrev has_checks : List DrawCheck → Bool
has_checks [] = false
has_checks (c ∷ cs) = true

-- The verdict of `finish`.
unfoldable pub verdict : List DrawCheck → Verdict
verdict checks =
    if any (λ (c : DrawCheck). is_false c.ok) checks
    then mismatch
    else if has_checks checks && every (λ (c : DrawCheck). is_true c.ok) checks
    then verified
    else unverifiable

-- `x !== null && x === n`
abbrev pub is_number : Option ℕ → ℕ → Bool
is_number none n = false
is_number (some m) n = m == n
