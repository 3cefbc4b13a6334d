-- ===== src/Draw/Verify/Verified.antt =====
-- What a verdict `verified` of `verifyDraw` says of the published record.
use twilight_core_explorer.Common.{
  ◌≡◌, ◌≢◌, refl, inl, inr, Bool, true, false, Option, some, List, [], ◌∷◌, All, All-append_parts,
  length, arith, Bool-cases,
}
use twilight_core_explorer.Text.{Text}
use twilight_core_explorer.Json.{Json, get}
use twilight_core_explorer.Draw.Bytes.{Bytes}
use twilight_core_explorer.Draw.Params.{DrawParameters, parsed, parse_parameters}
use twilight_core_explorer.Draw.Candidates.{parse_candidates}
use twilight_core_explorer.Draw.Hashes.{candidate_set_hash}
use twilight_core_explorer.Draw.Verify.{Input, Env, verified, unverifiable, verdict}
use twilight_core_explorer.Draw.Verify.Foundation.{foundation, broken}
use twilight_core_explorer.Draw.Verify.Outcome.{DrawOutcome, Derivation, derive_beacon}
use twilight_core_explorer.Draw.Verify.Run.{
  outcome_part, draw_checks, finish, verify_on, verify_draw,
}
use twilight_core_explorer.Common.{◌≤◌}
use twilight_core_explorer.Draw.Verify.Placed.{IsPlaced, derive_beacon-IsPlaced}
use twilight_core_explorer.Draw.Params.{is_object}
use twilight_core_explorer.Draw.Params.Accepted.{parse_object-parts}
use twilight_core_explorer.Draw.Params.Laws.{IsSound, validate_iff}
use twilight_core_explorer.Draw.Verify.Laws.{
  Holds, IsAnchored, IsFounded, Holds-IsFounded, verified-Holds, Holds-broken,
}
use twilight_core_explorer.Draw.Verify.Redrawn.{IsRedrawn, from_derivation-IsRedrawn}

abbrev pub rederived : Env → Input → DrawParameters → List Bytes → Derivation
rederived env i p ids =
    let f = foundation env i in
    derive_beacon env.sha i p (length ids) (candidate_set_hash env.sha i.context ids) f.section
      f.start f.end' f.window

-- What is shown of a record that verifies.
pub record IsReproduced (env : Env) (i : Input) : Type 0 where
  pub params : DrawParameters
  pub parsed_params : parse_parameters (get "parameters" i.published) ≡ parsed params
  pub candidates : List Bytes
  pub parsed_candidates :
      parse_candidates (get "candidates" i.published) params.max_candidates_per_selection
      ≡ some candidates
  pub anchored : IsAnchored env i params candidates
  pub sound : IsSound params
  pub placed : 2 ≤ length candidates → IsPlaced i params anchored.anchor.height
  pub redrawn : IsRedrawn env i params candidates (rederived env i params candidates)

not-both : (b : Bool) → b ≡ true → b ≢ false
not-both b h k = ground arith

checks-Holds :
    (env : Env) (i : Input)
    → verdict (draw_checks env i (foundation env i)) ≡ verified
    → All Holds (foundation env i).checks
      × All Holds (
          outcome_part env i
            (foundation env i)
            (foundation env i).params
            (foundation env i).candidates
            (foundation env i).set_hash)
unfolding draw_checks
checks-Holds env i h = elim (Bool-cases (broken (foundation env i).checks)) [
  | inl b ↦
      let all = verified-Holds (foundation env i).checks (rw b at h) in
      elim (not-both (broken (foundation env i).checks) b
        (Holds-broken (foundation env i).checks all)) [ ]
  | inr b ↦ All-append_parts Holds (foundation env i).checks _ (verified-Holds _ (rw b at h))
]

founded-fields :
    (env : Env) (i : Input) (f : IsFounded env i)
    → ((foundation env i).params ≡ some f.params)
      × ((foundation env i).candidates ≡ some f.candidates)
      × ((foundation env i).set_hash ≡ some (candidate_set_hash env.sha i.context f.candidates))
unfolding foundation
founded-fields env i f = rw (f.parsed_params, f.parsed_candidates) (refl, refl, refl)

rederived-IsPlaced :
    (env : Env) (i : Input) (f : IsFounded env i) (o : DrawOutcome)
    → 2 ≤ length f.candidates
    → (rederived env i f.params f.candidates).expected ≡ some o
    → IsPlaced i f.params f.anchored.anchor.height
unfolding foundation
rederived-IsPlaced env i f o le h =
    derive_beacon-IsPlaced env.sha i f.params (length f.candidates) _ _ _ _ f.anchored.anchor.height
      o le (rw (f.parsed_params, f.anchored.confirmed) at h)

parse_parameters-IsSound :
    (raw : Option Json) (p : DrawParameters) → parse_parameters raw ≡ parsed p → IsSound p
unfolding parse_parameters
parse_parameters-IsSound raw p h = (validate_iff p).0 (parse_object-parts (is_object raw) p h).1

checks-IsReproduced :
    (env : Env) (i : Input)
    → verdict (draw_checks env i (foundation env i)) ≡ verified
    → IsReproduced env i
unfolding outcome_part
checks-IsReproduced env i h =
    let (first, second) = checks-Holds env i h in
    let f = Holds-IsFounded env i first in
    let (p, ids, set) = founded-fields env i f in
    let redrawn : IsRedrawn env i f.params f.candidates (rederived env i f.params f.candidates) =
      from_derivation-IsRedrawn env i (foundation env i) f.params f.candidates
        (rederived env i f.params f.candidates) f.window (rw (p, ids, set) at second) in
    record {
      params = f.params;
      parsed_params = f.parsed_params;
      candidates = f.candidates;
      parsed_candidates = f.parsed_candidates;
      anchored = f.anchored;
      sound = parse_parameters-IsSound (get "parameters" i.published) f.params f.parsed_params;
      placed = λ le. rederived-IsPlaced env i f redrawn.outcome le redrawn.expected;
      redrawn = redrawn;
    }

unverifiable-verified : unverifiable ≢ verified
unverifiable-verified h = ground arith

verify_on-IsReproduced :
    (env : Env) (i : Input) (t : Text) → (verify_on env i t).result ≡ verified → IsReproduced env i
unfolding verify_on finish verdict
verify_on-IsReproduced env i [] h = elim (unverifiable-verified h) [ ]
verify_on-IsReproduced env i (c ∷ cs) h = checks-IsReproduced env i h

-- The verdict is `verified` only where: the published parameters parse and keep every rule of `IsSound`;
-- the candidates are a canonical set; the anchor that was found has a memo that commits the hash of
-- that set and of those parameters, for this slot and epoch, at the height that the record names; where
-- there are two candidates or more, the beacon window starts the offset after the anchor, has the
-- length that the parameters name, and each of its blocks is indexed and attributed; and the published
-- outcome, number of winners, winners and digest of the winners are those of the re-derivation.
pub verified-IsReproduced :
    (env : Env) (i : Input) → (verify_draw env i).result ≡ verified → IsReproduced env i
unfolding verify_draw
verified-IsReproduced env i h = verify_on-IsReproduced env i i.context.chain_id h
