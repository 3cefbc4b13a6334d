-- ===== src/Temporal/Invariant/Open.antt =====
-- `openActiveWindow` keeps the table consistent.
use twilight_core_explorer.Common.{
  ℕ, ◌≤◌, ◌≡◌, refl, inl, inr, true, false, ◌&&◌, Option, none, List, [], ◌∷◌, All, All-map, arith,
  ◌==◌, str_eq_iff, Bool-cases, String,
}
use twilight_core_explorer.Text.{eq_text}
use twilight_core_explorer.Text.Laws.{eq_text_iff}
use twilight_core_explorer.Projection.Failure.{FailureKind}
use twilight_core_explorer.Temporal.Types.{
  Window, Db, OpenWindowInput, active_status, create_failure,
}
use twilight_core_explorer.Temporal.Table.{covers, update_window, is_open_slot_window}
use twilight_core_explorer.Temporal.Window.{refreshed, new_window}
use twilight_core_explorer.Temporal.Invariant.{
  SameBelow, SameBelow-refl, Extends-map, Past, IsApart, IsBounded, SharesOwner, IsConsistent,
  EndsBy,
}
use twilight_core_explorer.Temporal.Invariant.Update.{
  Shrinks, Shrinks-refl, Pairs-IsApart-map, at_id, All-of_map,
}
use twilight_core_explorer.Temporal.Invariant.Close.{open-covers}

-- A failure row changes no window.
pub failure-IsConsistent :
    {past : Past} (h : ℕ) (db : Db) (height : ℕ) (event : Option ℕ) (type : Option String)
    (kind : FailureKind)
    → IsConsistent past h db
    → IsConsistent past h (create_failure height event type kind db)
unfolding create_failure
failure-IsConsistent h db height event type kind c = record {
  bounded = c.bounded;
  apart = c.apart;
  since = c.since;
  history = c.history;
}

refreshed-Shrinks : (input : OpenWindowInput) (old w : Window) → Shrinks w (refreshed input old w)
refreshed-Shrinks input old w = record {
  id = refl;
  slot = refl;
  address = refl;
  within = λ k p. unfold covers in (unfold covers in p);
}

refreshed_at-Shrinks :
    (input : OpenWindowInput) (old w : Window) (i : ℕ) → Shrinks w (at_id i (refreshed input old) w)
refreshed_at-Shrinks input old w i = elim (Bool-cases (w.id == i)) [
  | inl e ↦ rw e (refreshed-Shrinks input old w)
  | inr e ↦ rw e (Shrinks-refl w)
]

refreshed_at-IsBounded :
    (h n : ℕ) (input : OpenWindowInput) (old w : Window) (i : ℕ)
    → IsBounded h n w
    → IsBounded h n (at_id i (refreshed input old) w)
refreshed_at-IsBounded h n input old w i b = elim (Bool-cases (w.id == i)) [
  | inl e ↦ rw e (record { fresh = b.fresh; active = b.active; starts = b.starts; ends = b.ends })
  | inr e ↦ rw e b
]

All-Shrinks :
    (input : OpenWindowInput) (old : Window) (i : ℕ) (ws : List Window)
    → All (λ v. Shrinks v (at_id i (refreshed input old) v)) ws
All-Shrinks input old i [] = tt
All-Shrinks input old i (w ∷ ws) = (refreshed_at-Shrinks input old w i, All-Shrinks input old i ws)

refreshed_at-SameBelow :
    (input : OpenWindowInput) (old : Window) (h i : ℕ) (w : Window)
    → SameBelow h w (at_id i (refreshed input old) w)
refreshed_at-SameBelow input old h i w = elim (Bool-cases (w.id == i)) [
  | inl e ↦
      rw e (record {
        slot = refl;
        address = refl;
        start = refl;
        below = λ k lt. unfold covers in refl;
      })
  | inr e ↦ rw e (SameBelow-refl h w)
]

All-SameBelow :
    (input : OpenWindowInput) (old : Window) (h i : ℕ) (ws : List Window)
    → All (λ v. SameBelow h v (at_id i (refreshed input old) v)) ws
All-SameBelow input old h i [] = tt
All-SameBelow input old h i (w ∷ ws) =
    (refreshed_at-SameBelow input old h i w, All-SameBelow input old h i ws)

pub refresh-IsConsistent :
    {past : Past} (h i : ℕ) (input : OpenWindowInput) (old : Window) (db : Db)
    → IsConsistent past h db
    → IsConsistent past h (record db { windows = update_window i (refreshed input old) db.windows })
unfolding update_window
refresh-IsConsistent {past} h i input old db c = record {
  bounded = All-of_map (IsBounded h db.next_id) (at_id i (refreshed input old)) db.windows (
      All-map (IsBounded h db.next_id) _ db.windows
        (λ w. refreshed_at-IsBounded h db.next_id input old w i) c.bounded);
  apart =
      Pairs-IsApart-map (at_id i (refreshed input old)) db.windows
        (All-Shrinks input old i db.windows) c.apart;
  since = c.since;
  history =
      Extends-map past.height h (at_id i (refreshed input old)) past.windows db.windows c.since
        (All-SameBelow input old h i db.windows) c.history;
}

-- A window that covers a height at or after the horizon has no end.
covers_end :
    (h k : ℕ) (w : Window)
    → EndsBy h w.effective_from_height w.effective_to_height
    → h ≤ k
    → covers k w ≡ true
    → w.effective_to_height ≡ none
unfolding covers
covers_end h k w e le p = ground arith

new-covers :
    (k n : ℕ) (input : OpenWindowInput)
    → covers k (new_window input n) ≡ true
    → input.effective_from_height ≤ k
unfolding covers
new-covers k n input p = ground arith

module _ (n : ℕ) (input : OpenWindowInput) (w : Window)
    (b : IsBounded input.effective_from_height n w)
    (shut : is_open_slot_window input.slot_id w ≡ false) where
  not_owner :
      (eq_text w.consensus_address input.consensus_address && covers input.effective_from_height w
          ≡ true
        → w.slot_id ≡ input.slot_id)
      → SharesOwner w (new_window input n)
      → w.effective_to_height ≡ none
      → ⊥
  not_owner free (inl e) o = ground (arith, str_eq_iff w.status active_status, b.active)
  not_owner free (inr e) o = ground (
    arith,
    str_eq_iff w.status active_status,
    b.active,
    free,
    eq_text_iff w.consensus_address input.consensus_address,
    open-covers input.effective_from_height w b.starts o,
  )

  pub new-IsApart :
      (eq_text w.consensus_address input.consensus_address && covers input.effective_from_height w
          ≡ true
        → w.slot_id ≡ input.slot_id)
      → IsApart w (new_window input n)
  new-IsApart free = record {
    ids = let fresh = b.fresh in omega arith;
    disjoint = λ o k p q.
        not_owner free o
          (covers_end input.effective_from_height k w b.ends (new-covers k n input q) p);
  }
