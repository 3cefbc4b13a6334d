-- ===== src/Draw/Verify/Placed.antt =====
-- Where a verified draw among two or more has its beacon window.
use twilight_core_explorer.Common.{
  ℕ, zero, suc, ◌≡◌, ◌≢◌, refl, ◌+◌, Bool, true, false, Option, none, some, List, ltb,
  if◌then◌else◌, arith,
}
use twilight_core_explorer.Json.{Json}
use twilight_core_explorer.Draw.Bytes.{Bytes}
use twilight_core_explorer.Draw.Params.{DrawParameters}
use twilight_core_explorer.Draw.Hashes.{Context, Sha256}
use twilight_core_explorer.Draw.Verify.{DrawCheck, Input}
use twilight_core_explorer.Draw.Verify.Outcome.{DrawOutcome, Derivation, derive_beacon}
use twilight_core_explorer.Common.{◌≤◌, ◌<◌}
use twilight_core_explorer.Draw.Beacon.{BeaconComputation, assess_beacon}
use twilight_core_explorer.Draw.Verify.Foundation.{stands_in_place, window_ok}
use twilight_core_explorer.Draw.Verify.Outcome.{
  refuse_missing, in_place, with_window, assessed, derivation,
}

-- The beacon window stands where the anchor and the parameters put it, and every block of it is
-- indexed and attributed.
pub record IsPlaced (i : Input) (p : DrawParameters) (height : ℕ) : Type 0 where
  pub start : ℕ
  pub end' : ℕ
  pub after_anchor : height < start
  pub start-eq : start ≡ height + p.beacon_start_offset_blocks
  pub end-eq : end' + 1 ≡ start + p.beacon_window_blocks
  pub complete : (assess_beacon i.blocks start end' i.context.slot_id).missing ≡ 0

placed-parts :
    (p : DrawParameters) (s e h : ℕ)
    → stands_in_place p (some s) (some e) (some h) ≡ true
    → (h < s) × (s ≡ h + p.beacon_start_offset_blocks) × (e + 1 ≡ s + p.beacon_window_blocks)
placed-parts p s e h q = ground arith

window_ok-placed :
    (p : DrawParameters) (section : Option Json) (s e h : Option ℕ)
    → window_ok (some p) section s e h ≡ some true
    → stands_in_place p s e h ≡ true
window_ok-placed p none s e h q = ground arith
window_ok-placed p (some v) s e h q = ground arith

refuse_missing-expected :
    (section : Option Json) (o : DrawOutcome) → (refuse_missing section).expected ≢ some o
refuse_missing-expected none o h = ground arith
refuse_missing-expected (some v) o h = ground arith

whole_or-expected :
    (n : ℕ) (cs : List DrawCheck) (d : Derivation) (o : DrawOutcome)
    → (if ltb 0 n then derivation cs none none else d).expected ≡ some o
    → n ≡ 0
whole_or-expected zero cs d o h = refl
whole_or-expected (suc n) cs d o h = ground arith

assessed_complete :
    (sha : Sha256) (c : Context) (p : DrawParameters) (set : Bytes) (section : Option Json)
    (s e : ℕ) (comp : BeaconComputation) (o : DrawOutcome)
    → (assessed sha c p set section s e comp).expected ≡ some o
    → comp.missing ≡ 0
unfolding assessed
assessed_complete sha c p set section s e comp o h = whole_or-expected comp.missing _ _ o h

-- an outcome was expected only from a window that is whole
in_place_complete :
    (sha : Sha256) (i : Input) (p : DrawParameters) (set : Bytes) (section : Option Json)
    (start end' : Option ℕ) (o : DrawOutcome)
    → (in_place sha i p set section start end').expected ≡ some o
    → (s : ℕ) × (e : ℕ) × (start ≡ some s)
      × (end' ≡ some e)
      × ((assess_beacon i.blocks s e i.context.slot_id).missing ≡ 0)
unfolding in_place
in_place_complete sha i p set section none end' o h = elim (refuse_missing-expected section o h) [ ]
in_place_complete sha i p set section (some s) none o h =
    elim (refuse_missing-expected section o h) [ ]
in_place_complete sha i p set section (some s) (some e) o h =
    (s, e, refl, refl, assessed_complete sha i.context p set section s e _ o h)

with_window_complete :
    (sha : Sha256) (i : Input) (p : DrawParameters) (set : Bytes) (section : Option Json)
    (start end' : Option ℕ) (window : Option Bool) (o : DrawOutcome)
    → (with_window sha i p set section start end' window).expected ≡ some o
    → (window ≡ some true) × ((in_place sha i p set section start end').expected ≡ some o)
unfolding with_window
with_window_complete sha i p set section start end' (some true) o h = (refl, h)
with_window_complete sha i p set section start end' (some false) o h = ground arith
with_window_complete sha i p set section start end' none o h =
    elim (refuse_missing-expected section o h) [ ]

derive_beacon_complete :
    (sha : Sha256) (i : Input) (p : DrawParameters) (n : ℕ) (set : Bytes) (section : Option Json)
    (start end' : Option ℕ) (window : Option Bool) (o : DrawOutcome)
    → 2 ≤ n
    → (derive_beacon sha i p n set section start end' window).expected ≡ some o
    → (with_window sha i p set section start end' window).expected ≡ some o
unfolding derive_beacon
derive_beacon_complete sha i p n set section start end' window o le h = ground arith

pub derive_beacon-IsPlaced :
    (sha : Sha256) (i : Input) (p : DrawParameters) (n : ℕ) (set : Bytes) (section : Option Json)
    (start end' : Option ℕ) (height : ℕ) (o : DrawOutcome)
    → 2 ≤ n
    → (derive_beacon sha i p n set section start end'
        (window_ok (some p) section start end' (some height))).expected
      ≡ some o
    → IsPlaced i p height
derive_beacon-IsPlaced sha i p n set section start end' height o le h =
    let window = window_ok (some p) section start end' (some height) in
    let (ok, whole) =
      with_window_complete sha i p set section start end' window o
        (derive_beacon_complete sha i p n set section start end' window o le h) in
    let (s, e, es, ee, complete) = in_place_complete sha i p set section start end' o whole in
    let at = window_ok-placed p section start end' (some height) ok in
    let (after, start-eq, end-eq) = placed-parts p s e height (rw (es, ee) at at) in
    record {
      start = s;
      end' = e;
      after_anchor = after;
      start-eq = start-eq;
      end-eq = end-eq;
      complete = complete;
    }
