-- ===== src/Draw/Verify/Redrawn.antt =====
-- What the checks on the outcome and the winners say where all of them hold.
use twilight_core_explorer.Common.{
  ◌≡◌, ◌≢◌, refl, ap, Bool, true, false, ◌&&◌, Option, none, some, List, [], ◌∷◌, All,
  All-append_parts, length, arith, map,
}
use twilight_core_explorer.Text.{Text, codes}
use twilight_core_explorer.Text.Laws.{eq_text_iff}
use twilight_core_explorer.Json.{Json, null, bool, num, other_num, arr, obj, str, get}
use twilight_core_explorer.Draw.Bytes.{Bytes, to_bounded_big, to_hex, hex_eq}
use twilight_core_explorer.Draw.Params.{DrawParameters}
use twilight_core_explorer.Draw.Hashes.{Sha256, candidate_set_hash, selected_draw_ids_hash}
use twilight_core_explorer.Draw.Verify.{Input, Env}
use twilight_core_explorer.Draw.Verify.Foundation.{Foundation, winners_of}
use twilight_core_explorer.Draw.Verify.Outcome.{
  DrawOutcome, outcome_text, Derivation, outcome_checks, winner_checks, winners_against, is_outcome,
  expected_k, expected_winners, published_winners, same_winners, shape_checks,
}
use twilight_core_explorer.Draw.Verify.Run.{from_derivation}
use twilight_core_explorer.Draw.Verify.Laws.{Holds, is_number-eq}

-- The record's outcome, number of winners and winners are those of the re-derivation.
pub record IsRedrawn (env : Env) (i : Input) (p : DrawParameters) (ids : List Bytes)
    (d : Derivation) : Type 0 where
  pub outcome : DrawOutcome
  pub expected : d.expected ≡ some outcome
  pub published : get "outcome" i.published ≡ some (str (codes (outcome_text outcome)))
  pub k : to_bounded_big (get "k" i.published) ≡ some (expected_k p (length ids) outcome)
  pub winners : List Bytes
  pub drawn :
      expected_winners env.sha i.context
        (candidate_set_hash env.sha i.context ids)
        ids
        d.beacon
        (expected_k p (length ids) outcome)
        outcome
      ≡ some winners
  pub announced : published_winners (winners_of i) ≡ map to_hex winners
  pub digest :
      hex_eq
        (some (selected_draw_ids_hash env.sha i.context winners))
        (get "selected_draw_ids_hash" i.published)
      ≡ some true

same_winners-eq :
    (ts : List Text) (bs : List Bytes) → same_winners ts bs ≡ true → ts ≡ map to_hex bs
unfolding same_winners
same_winners-eq [] [] h = refl
same_winners-eq [] (b ∷ bs) h = ground arith
same_winners-eq (t ∷ ts) [] h = ground arith
same_winners-eq (t ∷ ts) (b ∷ bs) h =
    ground (arith, eq_text_iff (to_hex b) t, same_winners-eq ts bs)

is_outcome-eq :
    (v : Option Json) (o : DrawOutcome)
    → is_outcome v o ≡ true
    → v ≡ some (str (codes (outcome_text o)))
is_outcome-eq none o h = ground arith
is_outcome-eq (some (str s)) o h =
    ap (λ t. some (str t)) ((eq_text_iff s (codes (outcome_text o))).0 h)
is_outcome-eq (some null) o h = ground arith
is_outcome-eq (some (bool b)) o h = ground arith
is_outcome-eq (some (num n)) o h = ground arith
is_outcome-eq (some other_num) o h = ground arith
is_outcome-eq (some (arr vs)) o h = ground arith
is_outcome-eq (some (obj fs)) o h = ground arith

some-true : (b : Bool) → some b ≡ some true → b ≡ true
some-true b h = ground arith

and_parts : (a b : Bool) → (a && b) ≡ true → (a ≡ true) × (b ≡ true)
and_parts a b h = ground arith

outcome_checks-expected :
    (i : Input) (e : Option DrawOutcome) (w : Option Bool)
    → w ≢ some false
    → All Holds (outcome_checks i e w)
    → (o : DrawOutcome) × (e ≡ some o) × (is_outcome (get "outcome" i.published) o ≡ true)
unfolding outcome_checks
outcome_checks-expected i (some o) w n h = (o, refl, some-true _ h.0)
outcome_checks-expected i none none n h = ground arith
outcome_checks-expected i none (some true) n h = ground arith
outcome_checks-expected i none (some false) n h = elim (n refl) [ ]

winners_against-parts :
    (sha : Sha256) (i : Input) (k_ok : Bool) (ws : Option (List Bytes))
    → All Holds (winners_against sha i k_ok ws)
    → (l : List Bytes) × (ws ≡ some l)
      × (k_ok ≡ true)
      × (same_winners (published_winners (winners_of i)) l ≡ true)
      × (hex_eq
            (some (selected_draw_ids_hash sha i.context l))
            (get "selected_draw_ids_hash" i.published)
          ≡ some true)
unfolding winners_against
winners_against-parts sha i k_ok none h = ground arith
winners_against-parts sha i k_ok (some l) h =
    let (k, same) =
      and_parts k_ok (same_winners (published_winners (winners_of i)) l) (some-true _ h.0) in
    (l, refl, k, same, h.1.0)

pub from_derivation-IsRedrawn :
    (env : Env) (i : Input) (f : Foundation) (p : DrawParameters) (ids : List Bytes)
    (d : Derivation)
    → f.window ≢ some false
    → All Holds (from_derivation env i f p ids (candidate_set_hash env.sha i.context ids) d)
    → IsRedrawn env i p ids d
unfolding winner_checks
from_derivation-IsRedrawn env i f p ids d n h =
    let later = (All-append_parts Holds (shape_checks (length ids) f.section) _ h).1 in
    let after = (All-append_parts Holds d.checks _ later).1 in
    let (outcome, winners) =
      All-append_parts Holds (outcome_checks i d.expected f.window) _ after in
    let (o, e, published) = outcome_checks-expected i d.expected f.window n outcome in
    let against = rw e at winners in
    let (l, drawn, k, same, digest) = winners_against-parts env.sha i _ _ against in
    record {
      outcome = o;
      expected = e;
      published = is_outcome-eq (get "outcome" i.published) o published;
      k = is_number-eq (to_bounded_big (get "k" i.published)) (expected_k p (length ids) o) k;
      winners = l;
      drawn = drawn;
      announced = same_winners-eq (published_winners (winners_of i)) l same;
      digest = digest;
    }
