-- ===== src/Temporal/Invariant/CloseActive.antt =====
-- `closeActiveWindows` keeps the table consistent.
use twilight_core_explorer.Common.{
  ℕ, ◌≤◌, ◌≡◌, refl, inl, inr, true, false, Option, none, some, [], ◌∷◌, arith, leb, not-leb→lt,
  Bool-cases,
}
use twilight_core_explorer.Text.{eq_text, OptionalNormalized, absent, present, malformed}
use twilight_core_explorer.Projection.Failure.{effective_height_invalid}
use twilight_core_explorer.Temporal.Types.{Window, Db, CloseInput, CloseWindowInput, create_failure}
use twilight_core_explorer.Temporal.Table.{find_open_slot_windows, is_open_slot_window}
use twilight_core_explorer.Temporal.Window.{
  close_window, Closed, close_each, close_selected, close_matching, close_active_windows,
}
use twilight_core_explorer.Temporal.Lists.{In, keep_if_kept, keep_if_dropped}
use twilight_core_explorer.Temporal.Invariant.{Past, IsConsistent, IsConsistent-mono}
use twilight_core_explorer.Temporal.Invariant.Close.{
  OpenOf-slot, OpenOf, none_open, one_open, close_window_lem, close-IsConsistent, open_end,
}
use twilight_core_explorer.Temporal.Invariant.Open.{failure-IsConsistent}

module _ (w : Window) (input : CloseInput) (db : Db) where
  close_window_refused :
      leb input.effective_to_height w.effective_from_height ≡ true
      → close_window w input db ≡ (
        false,
        create_failure input.source_height input.closed_by_event_id none effective_height_invalid
            db,
      )
  unfolding close_window
  close_window_refused e = rw e

  close_each_one : (n : ℕ) → (close_each input n (w ∷ []) db).1 ≡ (close_window w input db).1
  unfolding close_each
  close_each_one n = ground arith

module _ {past : Past} (h s : ℕ) (input : CloseInput) (db : Db) (le : h ≤ input.effective_to_height)
    (c : IsConsistent past h db) where
  close_window-IsConsistent :
      (w : Window)
      → In w db.windows
      → is_open_slot_window s w ≡ true
      → IsConsistent past input.effective_to_height (close_window w input db).1
  close_window-IsConsistent w m o =
      elim (Bool-cases (leb input.effective_to_height w.effective_from_height)) [
        | inl e ↦ rw (close_window_refused w input db e) (
            failure-IsConsistent input.effective_to_height db _ _ _ _
              (IsConsistent-mono h input.effective_to_height db le c))
        | inr e ↦
            rw
              (close_window_lem h input.effective_to_height input w db le refl c m (open_end s w o)
                (not-leb→lt _ _ e))
              (close-IsConsistent h input.effective_to_height input w db le refl c m
                (open_end s w o) (not-leb→lt _ _ e))
      ]

module _ {past : Past} (h : ℕ) (input : CloseWindowInput) (db : Db)
    (le : h ≤ input.close.effective_to_height) (c : IsConsistent past h db) where
  abbrev Kept : Closed × Db → Type 0
  Kept r = IsConsistent past input.close.effective_to_height r.1

  later : IsConsistent past input.close.effective_to_height db
  later = IsConsistent-mono h input.close.effective_to_height db le c

  close_selected_none : Kept (close_selected input [] db)
  close_selected_none = elim (Bool-cases input.require_window) [
    | inl e ↦ rw e (failure-IsConsistent input.close.effective_to_height db _ _ _ _ later)
    | inr e ↦ rw e later
  ]

  close_selected_one :
      (w : Window)
      → In w db.windows
      → is_open_slot_window input.slot_id w ≡ true
      → Kept (close_selected input (w ∷ []) db)
  close_selected_one w m o =
      rw (close_each_one w input.close db 0)
        (close_window-IsConsistent h input.slot_id input.close db le c w m o)

  close_matching-IsConsistent :
      (arg : Option OptionalNormalized)
      → OpenOf input.slot_id db.windows
      → Kept (close_matching input arg (find_open_slot_windows input.slot_id db.windows) db)
  close_matching-IsConsistent (some malformed) o =
      failure-IsConsistent input.close.effective_to_height db _ _ _ _ later
  close_matching-IsConsistent (some absent) (none_open e _) = rw e close_selected_none
  close_matching-IsConsistent (some absent) (one_open w e m o) = rw e (close_selected_one w m o)
  close_matching-IsConsistent (some (present a)) (none_open e _) = rw e close_selected_none
  close_matching-IsConsistent (some (present a)) (one_open w e m o) =
      rw e (elim (Bool-cases (eq_text w.consensus_address a)) [
        | inl same ↦
            rw (keep_if_kept (λ v. eq_text v.consensus_address a) w [] same)
              (close_selected_one w m o)
        | inr other ↦
            rw (keep_if_dropped (λ v. eq_text v.consensus_address a) w [] other) close_selected_none
      ])
  close_matching-IsConsistent none (none_open e _) = rw e close_selected_none
  close_matching-IsConsistent none (one_open w e m o) = rw e (close_selected_one w m o)

  pub close-active-IsConsistent : Kept (close_active_windows input db)
  unfolding close_active_windows
  close-active-IsConsistent = close_matching-IsConsistent _ (OpenOf-slot h input.slot_id db c)
