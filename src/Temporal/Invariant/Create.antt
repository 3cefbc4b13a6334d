-- ===== src/Temporal/Invariant/Create.antt =====
-- The new row of `openActiveWindow`, and the operation as a whole.
use twilight_core_explorer.Common.{
  ℕ, ◌+◌, ◌≤◌, ◌≡◌, refl, inl, inr, Bool, true, false, not, ◌&&◌, Option, none, some, List, [], ◌∷◌,
  All, All-map, All-append, arith, ◌==◌, ==_iff, leb, not-leb→lt, keep_if, Bool-cases,
}
use twilight_core_explorer.Text.{eq_text}
use twilight_core_explorer.Projection.Failure.{temporal_window_conflict}
use twilight_core_explorer.Temporal.Types.{Window, Db, OpenWindowInput, create_failure}
use twilight_core_explorer.Temporal.Table.{
  covers, is_open_slot_window, find_consensus_windows_at_height,
}
use twilight_core_explorer.Temporal.Window.{
  close_window, close_of_open, close_earlier, new_window, create_window, create_unless, open_after,
  open_unless, open_active_window,
}
use twilight_core_explorer.Temporal.Lists.{
  In, Pairs-append, All-of_sort_by, All-keep_if_nil, All-of_keep_if,
}
use twilight_core_explorer.Temporal.Invariant.{
  Extends-append, Past, IsApart, IsBounded, IsConsistent, IsConsistent-mono, IsBounded-mono,
}
use twilight_core_explorer.Temporal.Invariant.Close.{
  OpenOf-slot, OpenOf, none_open, one_open, close_window_lem, close-IsConsistent, none_open_after,
  open_end,
}
use twilight_core_explorer.Temporal.Invariant.Open.{
  failure-IsConsistent, refresh-IsConsistent, new-IsApart,
}

abbrev Free : OpenWindowInput → Window → Type 0
Free input w =
    eq_text w.consensus_address input.consensus_address && covers input.effective_from_height w
      ≡ true
    → w.slot_id ≡ input.slot_id

not-false : (b : Bool) → not b ≡ false → b ≡ true
not-false true e = refl
not-false false e = cc

All-Free :
    (input : OpenWindowInput) (ws : List Window)
    → keep_if
        (λ w. not (w.slot_id == input.slot_id))
        (find_consensus_windows_at_height input.consensus_address input.effective_from_height ws)
      ≡ []
    → All (Free input) ws
unfolding find_consensus_windows_at_height
All-Free input ws e =
    All-map
      (λ w.
        eq_text w.consensus_address input.consensus_address && covers input.effective_from_height w
          ≡ true
        → not (w.slot_id == input.slot_id) ≡ false)
      (Free input) ws (λ w f p. (==_iff w.slot_id input.slot_id).0 (not-false _ (f p)))
      (All-of_keep_if (λ w. not (w.slot_id == input.slot_id) ≡ false) _ ws
        (All-of_sort_by _ _ _ (All-keep_if_nil _ _ e)))

All-IsApart :
    (n : ℕ) (input : OpenWindowInput) (ws : List Window)
    → All (IsBounded input.effective_from_height n) ws
    → All (λ w. is_open_slot_window input.slot_id w ≡ false) ws
    → All (Free input) ws
    → All (λ w. IsApart w (new_window input n)) ws
All-IsApart n input [] b o f = tt
All-IsApart n input (w ∷ ws) b o f =
    (new-IsApart n input w b.0 o.0 f.0, All-IsApart n input ws b.1 o.1 f.1)

module _ {past : Past} (input : OpenWindowInput) (db : Db)
    (c : IsConsistent past input.effective_from_height db)
    (shut : All (λ w. is_open_slot_window input.slot_id w ≡ false) db.windows) where
  abbrev conflicts : List Window
  conflicts =
      keep_if (λ w. not (w.slot_id == input.slot_id))
        (find_consensus_windows_at_height input.consensus_address input.effective_from_height
          db.windows)

  create_unless-IsConsistent :
      (l : List Window)
      → conflicts ≡ l
      → IsConsistent past input.effective_from_height (create_unless input l db).1
  create_unless-IsConsistent [] e = record {
    bounded =
        All-append (IsBounded input.effective_from_height (db.next_id + 1)) db.windows _
          (All-map _ _ db.windows
            (λ w.
              IsBounded-mono input.effective_from_height input.effective_from_height db.next_id
                (db.next_id + 1) w (omega arith) (omega arith))
            c.bounded)
          (record { fresh = omega arith; active = refl; starts = omega arith; ends = tt }, tt);
    apart =
        Pairs-append IsApart db.windows (new_window input db.next_id) c.apart
          (All-IsApart db.next_id input db.windows c.bounded shut (All-Free input db.windows e));
    since = c.since;
    history =
        Extends-append past.height past.windows db.windows (new_window input db.next_id) c.since
          c.history;
  }
  create_unless-IsConsistent (w ∷ ws) e =
      failure-IsConsistent input.effective_from_height db _ _ _ _ c

  pub create-IsConsistent : IsConsistent past input.effective_from_height (create_window input db).1
  unfolding create_window
  create-IsConsistent = create_unless-IsConsistent conflicts refl

module _ (input : OpenWindowInput) (w : Window) (db : Db) where
  pub close_earlier_conflict :
      leb input.effective_from_height w.effective_from_height ≡ true
      → close_earlier input (w ∷ []) db ≡ (
        false,
        create_failure input.source_height input.opened_by_event_id none temporal_window_conflict
            db,
      )
  unfolding close_earlier
  close_earlier_conflict e = rw e

  pub close_earlier_closed :
      leb input.effective_from_height w.effective_from_height ≡ false
      → close_earlier input (w ∷ []) db ≡ (true, (close_window w (close_of_open input) db).1)
  unfolding close_earlier
  close_earlier_closed e = rw e

pub close_earlier_none :
    (input : OpenWindowInput) (db : Db) → close_earlier input [] db ≡ (true, db)
unfolding close_earlier
close_earlier_none input db = refl

module _ {past : Past} (h : ℕ) (input : OpenWindowInput) (db : Db)
    (le : h ≤ input.effective_from_height) (c : IsConsistent past h db) where
  closed_first-IsConsistent :
      (w : Window)
      → In w db.windows
      → is_open_slot_window input.slot_id w ≡ true
      → IsConsistent past input.effective_from_height
          (open_after input (close_earlier input (w ∷ []) db)).1
  closed_first-IsConsistent w m o =
      elim (Bool-cases (leb input.effective_from_height w.effective_from_height)) [
        | inl e ↦ rw (close_earlier_conflict input w db e) (
            failure-IsConsistent input.effective_from_height db _ _ _ _
              (IsConsistent-mono h input.effective_from_height db le c))
        | inr e ↦
            rw
              (
                close_earlier_closed input w db e,
                close_window_lem h input.effective_from_height (close_of_open input) w db le refl c
                    m (open_end input.slot_id w o) (not-leb→lt _ _ e),
              )
              (create-IsConsistent input _
                (close-IsConsistent h input.effective_from_height (close_of_open input) w db le refl
                  c m (open_end input.slot_id w o) (not-leb→lt _ _ e))
                (none_open_after h input.slot_id (close_of_open input) w db c m o))
      ]

  open_none-IsConsistent :
      OpenOf input.slot_id db.windows
      → IsConsistent past input.effective_from_height (open_unless input none db).1
  open_none-IsConsistent (none_open e shut) = rw e (
      unfold close_earlier in
      create-IsConsistent input db (IsConsistent-mono h input.effective_from_height db le c) shut)
  open_none-IsConsistent (one_open w e m o) = rw e (closed_first-IsConsistent w m o)

  open_unless-IsConsistent :
      (o : Option Window) → IsConsistent past input.effective_from_height (open_unless input o db).1
  open_unless-IsConsistent none = open_none-IsConsistent (OpenOf-slot h input.slot_id db c)
  open_unless-IsConsistent (some same) =
      refresh-IsConsistent input.effective_from_height same.id input same db
        (IsConsistent-mono h input.effective_from_height db le c)

  -- Opening a window at or after the horizon keeps the table consistent, whether a window is
  -- refreshed, another one closed, a new one made or the request refused.
  pub open-IsConsistent :
      IsConsistent past input.effective_from_height (open_active_window input db).1
  unfolding open_active_window
  open-IsConsistent = open_unless-IsConsistent _
