-- ===== src/Draw/Verify/Laws.antt =====
-- What the checks of the foundation say of the published record where all of them hold.
use twilight_core_explorer.Common.{
  ℕ, ◌≡◌, ◌≢◌, refl, Bool, true, false, Option, none, some, List, [], ◌∷◌, All, All-append_parts,
  every, arith,
}
use twilight_core_explorer.Text.{eq_text}
use twilight_core_explorer.Text.Laws.{eq_text_iff}
use twilight_core_explorer.Json.{get}
use twilight_core_explorer.Draw.Bytes.{Bytes, to_bounded_big, to_hex}
use twilight_core_explorer.Draw.Params.{DrawParameters, Parsed, parsed, refused, parse_parameters}
use twilight_core_explorer.Draw.Params.Preimage.{params_preimage}
use twilight_core_explorer.Draw.Candidates.{parse_candidates}
use twilight_core_explorer.Draw.Memo.{Memo, decode_anchor_memo}
use twilight_core_explorer.Draw.Hashes.{Context, candidate_set_hash}
use twilight_core_explorer.Draw.Verify.{
  DrawCheck, Input, Env, Anchor, verified, verdict, is_number, is_true,
}
use twilight_core_explorer.Draw.Verify.Foundation.{
  foundation, broken, get_in, parsed_ok, accepted, params_hash, candidates_of, canonical_ok,
  set_hash, anchor_ok, decoded_ok, memo_commits, placement_checks, policy_checks,
}

abbrev pub Holds : DrawCheck → Type 0
Holds c = c.ok ≡ some true

is_true-eq : (o : Option Bool) → is_true o ≡ true → o ≡ some true
is_true-eq none h = ground arith
is_true-eq (some b) h = ground arith

every-Holds :
    (cs : List DrawCheck) → every (λ (c : DrawCheck). is_true c.ok) cs ≡ true → All Holds cs
every-Holds [] h = tt
every-Holds (c ∷ cs) h = ground (arith, is_true-eq c.ok, every-Holds cs)

pub verified-Holds : (cs : List DrawCheck) → verdict cs ≡ verified → All Holds cs
unfolding verdict
verified-Holds cs h = ground (arith, every-Holds cs)

pub Holds-broken : (cs : List DrawCheck) → All Holds cs → broken cs ≡ false
unfolding broken
Holds-broken [] h = refl
Holds-broken (c ∷ cs) h = rw (h.0) (Holds-broken cs h.1)

parsed_ok-eq :
    (r : Parsed DrawParameters) → parsed_ok r ≡ some true → (p : DrawParameters) × (r ≡ parsed p)
parsed_ok-eq (parsed p) h = (p, refl)
parsed_ok-eq (refused reason true) h = ground arith
parsed_ok-eq (refused reason false) h = ground arith

canonical_ok-eq :
    (p : DrawParameters) (ids : Option (List Bytes))
    → canonical_ok (some p) ids ≡ some true
    → (l : List Bytes) × (ids ≡ some l)
canonical_ok-eq p none h = ground arith
canonical_ok-eq p (some l) h = (l, refl)

pub is_number-eq : (o : Option ℕ) (n : ℕ) → is_number o n ≡ true → o ≡ some n
is_number-eq none n h = ground arith
is_number-eq (some m) n h = ground arith

-- The memo on chain commits this set and these parameters for this slot and epoch, at the height that
-- the record names.
pub record IsAnchored (env : Env) (i : Input) (p : DrawParameters) (ids : List Bytes) : Type 0 where
  pub anchor : Anchor
  pub found : i.anchor ≡ some anchor
  pub memo : Memo
  pub decoded : decode_anchor_memo env.parse_json anchor.memo ≡ some memo
  pub slot : memo.slot ≡ i.context.slot_id
  pub epoch : memo.epoch ≡ i.context.epoch
  pub set : memo.set ≡ to_hex (candidate_set_hash env.sha i.context ids)
  pub params : memo.params ≡ to_hex (env.sha.digest (params_preimage p))
  pub confirmed :
      to_bounded_big (get_in "confirmed_height" (get "anchor" i.published)) ≡ some anchor.height

memo_commits-parts :
    (c : Context) (m : Memo) (set params : Bytes) (confirmed : Option ℕ) (height : ℕ)
    → memo_commits c m (some set) (some params) confirmed height ≡ true
    → (m.slot ≡ c.slot_id)
      × (m.epoch ≡ c.epoch)
      × (eq_text m.set (to_hex set) ≡ true)
      × (eq_text m.params (to_hex params) ≡ true)
      × (is_number confirmed height ≡ true)
memo_commits-parts c m set params confirmed height h = ground arith

decoded_ok-parts :
    (c : Context) (o : Option Memo) (set params : Bytes) (confirmed : Option ℕ) (height : ℕ)
    → decoded_ok c o (some set) (some params) confirmed height ≡ some true
    → (m : Memo) × (o ≡ some m)
      × (memo_commits c m (some set) (some params) confirmed height ≡ true)
decoded_ok-parts c none set params confirmed height h = ground arith
decoded_ok-parts c (some m) set params confirmed height h = (m, refl, ground arith)

anchor_ok-parts :
    (env : Env) (c : Context) (o : Option Anchor) (set params : Bytes) (confirmed : Option ℕ)
    → anchor_ok env c o (some set) (some params) confirmed ≡ some true
    → (a : Anchor) × (o ≡ some a)
      × (decoded_ok c
            (decode_anchor_memo env.parse_json a.memo)
            (some set)
            (some params)
            confirmed
            a.height
          ≡ some true)
anchor_ok-parts env c none set params confirmed h = ground arith
anchor_ok-parts env c (some a) set params confirmed h = (a, refl, h)

anchor_ok-IsAnchored :
    (env : Env) (i : Input) (p : DrawParameters) (ids : List Bytes)
    → anchor_ok env i.context i.anchor
        (set_hash env.sha i.context (some ids))
        (params_hash env.sha (some p))
        (to_bounded_big (get_in "confirmed_height" (get "anchor" i.published)))
      ≡ some true
    → IsAnchored env i p ids
anchor_ok-IsAnchored env i p ids h =
    let set = candidate_set_hash env.sha i.context ids in
    let params = env.sha.digest (params_preimage p) in
    let confirmed = to_bounded_big (get_in "confirmed_height" (get "anchor" i.published)) in
    let (a, found, d) = anchor_ok-parts env i.context i.anchor set params confirmed h in
    let (m, decoded, e) =
      decoded_ok-parts i.context (decode_anchor_memo env.parse_json a.memo) set params confirmed
        a.height d in
    let (slot, epoch, same, same', at_height) =
      memo_commits-parts i.context m set params confirmed a.height e in
    record {
      anchor = a;
      found = found;
      memo = m;
      decoded = decoded;
      slot = slot;
      epoch = epoch;
      set = (eq_text_iff m.set (to_hex set)).0 same;
      params = (eq_text_iff m.params (to_hex params)).0 same';
      confirmed = is_number-eq confirmed a.height at_height;
    }

placement_checks-window : (w : Option Bool) → All Holds (placement_checks w) → w ≢ some false
placement_checks-window none h e = ground arith
placement_checks-window (some true) h e = ground arith
placement_checks-window (some false) h e = ground arith

-- What the foundation's checks say together.
pub record IsFounded (env : Env) (i : Input) : Type 0 where
  pub params : DrawParameters
  pub parsed_params : parse_parameters (get "parameters" i.published) ≡ parsed params
  pub candidates : List Bytes
  pub parsed_candidates :
      parse_candidates (get "candidates" i.published) params.max_candidates_per_selection
      ≡ some candidates
  pub anchored : IsAnchored env i params candidates
  pub window : (foundation env i).window ≢ some false

pub Holds-IsFounded :
    (env : Env) (i : Input) → All Holds (foundation env i).checks → IsFounded env i
unfolding foundation
Holds-IsFounded env i h =
    let (p, e) = parsed_ok-eq (parse_parameters (get "parameters" i.published)) h.1.0 in
    let tail =
      (All-append_parts Holds
        (policy_checks i (accepted (parse_parameters (get "parameters" i.published)))) _
        h.1.1.1).1 in
    let (ids, e') = canonical_ok-eq p (candidates_of i (some p)) (rw e at tail.0) in
    record {
      params = p;
      parsed_params = e;
      candidates = ids;
      parsed_candidates = e';
      anchored = anchor_ok-IsAnchored env i p ids (rw (e, e') at tail.1.1.0);
      window = placement_checks-window (foundation env i).window tail.1.1.1;
    }
