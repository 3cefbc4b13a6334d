-- ===== src/Draw/Verify/Run.antt =====
-- `verifyDraw` of draw-verify.ts, from its two parts.
use twilight_core_explorer.Common.{Option, none, some, List, [], ◌∷◌, ◌++◌, length, if◌then◌else◌}
use twilight_core_explorer.Text.{Text}
use twilight_core_explorer.Draw.Bytes.{Bytes}
use twilight_core_explorer.Draw.Params.{DrawParameters}
use twilight_core_explorer.Draw.Verify.{
  DrawCheck, check, Caveat, single_anchor_not_checked, Input, Env, DrawVerification,
  context_available, verdict,
}
use twilight_core_explorer.Draw.Verify.Foundation.{Foundation, foundation, broken}
use twilight_core_explorer.Draw.Verify.Outcome.{
  Derivation, derive_beacon, shape_checks, outcome_checks, winner_checks,
}

abbrev pub from_derivation :
    Env → Input → Foundation → DrawParameters → List Bytes → Bytes → Derivation → List DrawCheck
from_derivation env i f p ids set d =
    shape_checks (length ids) f.section
    ++ (d.checks
        ++ (outcome_checks i d.expected f.window
            ++ winner_checks env.sha i p ids set d.beacon d.expected))

unfoldable pub outcome_part :
    Env
    → Input
    → Foundation
    → Option DrawParameters
    → Option (List Bytes)
    → Option Bytes
    → List DrawCheck
unfolding derive_beacon
outcome_part env i f (some p) (some ids) (some set) =
    from_derivation env i f p ids set
      (derive_beacon env.sha i p (length ids) set f.section f.start f.end' f.window)
outcome_part env i f _ _ _ = []

unfoldable pub finish : List DrawCheck → List Caveat → DrawVerification
unfolding verdict
finish checks caveats = record {
  result = verdict checks;
  checks = checks;
  caveats = single_anchor_not_checked ∷ caveats;
}

unfoldable pub draw_checks : Env → Input → Foundation → List DrawCheck
unfolding broken outcome_part
draw_checks env i f =
    if broken f.checks
    then f.checks
    else f.checks ++ outcome_part env i f f.params f.candidates f.set_hash

-- without a chain id nothing can be verified
unfoldable pub verify_on : Env → Input → Text → DrawVerification
unfolding foundation finish draw_checks
verify_on env i [] = finish (check context_available none ∷ []) []
verify_on env i (c ∷ cs) = let f = foundation env i in finish (draw_checks env i f) f.caveats

-- `verifyDraw`
unfoldable pub verify_draw : Env → Input → DrawVerification
unfolding verify_on
verify_draw env i = verify_on env i i.context.chain_id
