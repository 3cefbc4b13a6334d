-- ===== src/Temporal/History.antt =====
-- Projecting a height leaves the answers for earlier heights as they were.
use twilight_core_explorer.Common.{
  ℕ, ◌≤◌, ◌<◌, ◌≡◌, refl, ap, inl, inr, ◌∙◌, false, Option, none, some, List, [], ◌∷◌, All, arith,
  keep_if, Bool-cases, String,
}
use twilight_core_explorer.Text.{Text, Normalized, ok, invalid, normalize_consensus_address}
use twilight_core_explorer.Temporal.Types.{Window, Db}
use twilight_core_explorer.Temporal.Table.{
  covers, covers_address, later_of, latest, find_address, find_consensus_window_at_height,
}
use twilight_core_explorer.Temporal.Lists.{keep_if_kept, keep_if_dropped, keep_if_nil}
use twilight_core_explorer.Temporal.Height.{Upstream, project_core_slot_temporal_map_height}
use twilight_core_explorer.Temporal.Invariant.{Past, IsConsistent, SameBelow, Extends, Extends-refl}
use twilight_core_explorer.Temporal.Invariant.Heights.{HeightInOrder, height-IsConsistent}

abbrev pub slot_of : Option Window → Option ℕ
slot_of none = none
slot_of (some w) = some w.slot_id

abbrev SameAnswer : Option Window → Option Window → Type 0
SameAnswer none none = Unit
SameAnswer (some w) (some v) =
    (v.slot_id ≡ w.slot_id) × (v.effective_from_height ≡ w.effective_from_height)
SameAnswer _ _ = ⊥

slot_of_same : (o p : Option Window) → SameAnswer o p → slot_of p ≡ slot_of o
slot_of_same none none s = refl
slot_of_same (some w) (some v) s = ap some s.0
slot_of_same none (some v) s = absurd s
slot_of_same (some w) none s = absurd s

later_of-same :
    (w v : Window) (o p : Option Window)
    → SameAnswer (some w) (some v)
    → SameAnswer o p
    → SameAnswer (some (later_of w o)) (some (later_of v p))
later_of-same w v none none s t = s
later_of-same w v (some x) (some y) s t = ground arith
later_of-same w v none (some y) s t = absurd t
later_of-same w v (some x) none s t = absurd t

module _ (h k : ℕ) (a : Text) (lt : k < h) where
  abbrev answer : List Window → Option Window
  answer ws = latest (keep_if (covers_address a k) ws)

  not_yet : (v : Window) → h ≤ v.effective_from_height → covers_address a k v ≡ false
  unfolding covers
  not_yet v le = ground arith

  All-not_yet :
      (vs : List Window)
      → All (λ v. h ≤ v.effective_from_height) vs
      → All (λ v. covers_address a k v ≡ false) vs
  All-not_yet [] le = tt
  All-not_yet (v ∷ vs) le = (not_yet v le.0, All-not_yet vs le.1)

  same_test : (w v : Window) → SameBelow h w v → covers_address a k v ≡ covers_address a k w
  same_test w v s = cc (s.address, s.below k lt)

  same_answer : (ws vs : List Window) → Extends h ws vs → SameAnswer (answer ws) (answer vs)
  unfolding latest
  same_answer [] vs e = rw (keep_if_nil (covers_address a k) vs (All-not_yet vs e)) tt
  same_answer (w ∷ ws) [] e = absurd e
  same_answer (w ∷ ws) (v ∷ vs) e = elim (Bool-cases (covers_address a k w)) [
    | inl o ↦
        rw
          (
            keep_if_kept (covers_address a k) w ws o,
            keep_if_kept (covers_address a k) v vs (same_test w v e.0 ∙ o),
          )
          (later_of-same w v (answer ws) (answer vs) (e.0.slot, e.0.start) (same_answer ws vs e.1))
    | inr o ↦
        rw
          (
            keep_if_dropped (covers_address a k) w ws o,
            keep_if_dropped (covers_address a k) v vs (same_test w v e.0 ∙ o),
          )
          (same_answer ws vs e.1)
  ]

same_slot :
    (h k : ℕ) (n : Normalized) (ws vs : List Window)
    → k < h
    → Extends h ws vs
    → slot_of (find_address n k vs) ≡ slot_of (find_address n k ws)
same_slot h k invalid ws vs lt e = refl
same_slot h k (ok a) ws vs lt e = slot_of_same _ _ (same_answer h k a lt ws vs e)

-- Where a height's rows take effect in order, none before the horizon `h`, and the table is
-- consistent at `h`, projecting the height, whether or not the database ends the transaction by a
-- fault, does not change which slot the lookup attributes a consensus address to at any height below
-- `h`.
pub find-height_before :
    {past : Past} (chain : String) (h height k : ℕ) (u : Upstream) (fault : Option String) (db : Db)
    (given : Option Text)
    → HeightInOrder h height u
    → IsConsistent past h db
    → k < h
    → slot_of (
        find_consensus_window_at_height given k
          (project_core_slot_temporal_map_height chain height u fault db).1.windows)
      ≡ slot_of (find_consensus_window_at_height given k db.windows)
unfolding find_consensus_window_at_height
find-height_before chain h height k u none db given o c lt =
    let now : IsConsistent (record { height = h; windows = db.windows }) h db = record {
      bounded = c.bounded;
      apart = c.apart;
      since = omega arith;
      history = Extends-refl h db.windows;
    } in
    same_slot h k (normalize_consensus_address given) db.windows _ lt
      (height-IsConsistent chain h height u db o now).0.history
find-height_before chain h height k u (some message) db given o c lt =
    ap (λ ws. slot_of (find_consensus_window_at_height given k ws))
      ((height-IsConsistent chain h height u db o c).1 message).0
