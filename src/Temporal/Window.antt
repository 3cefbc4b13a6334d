-- ===== src/Temporal/Window.antt =====
-- `closeWindow`, `openActiveWindow` and `closeActiveWindows` of coreslot-temporal-map.ts.
use twilight_core_explorer.Common.{
  ℕ, ◌+◌, Bool, true, false, not, Option, none, some, List, [], ◌∷◌, ◌++◌, ltb, leb, ◌==◌, keep_if,
  or_else, length, if◌then◌else◌,
}
use twilight_core_explorer.Text.{
  eq_text, OptionalNormalized, absent, present, malformed, normalize_optional_consensus_address,
}
use twilight_core_explorer.Projection.Failure.{
  invalid_consensus_address, temporal_window_conflict, temporal_window_ambiguous,
  missing_activation_window, effective_height_invalid,
}
use twilight_core_explorer.Temporal.Types.{
  Window, Db, OpenWindowInput, CloseInput, CloseWindowInput, AddressArg, omitted, given,
  active_status, create_failure,
}
use twilight_core_explorer.Temporal.Table.{
  update_window, find_slot_consensus_window_at_height, find_consensus_windows_at_height,
  find_open_slot_windows,
}

-- the columns that `closeWindow` writes
abbrev pub closed : CloseInput → Window → Window
closed input w = record w {
  effective_to_height = some input.effective_to_height;
  closed_by_kind = some input.closed_by_kind;
  closed_by_event_id = input.closed_by_event_id;
  closed_by_rotation_id = input.closed_by_rotation_id;
  closed_by_lifecycle_id = input.closed_by_lifecycle_id;
}

-- a window that is already closed, no later than asked
abbrev ends_by : ℕ → Option ℕ → Bool
ends_by height none = false
ends_by height (some to) = leb to height

-- `closeWindow`
unfoldable pub close_window : Window → CloseInput → Db → Bool × Db
unfolding create_failure update_window
close_window window input db =
    if leb input.effective_to_height window.effective_from_height
    then (
      false,
      create_failure input.source_height input.closed_by_event_id none effective_height_invalid db,
    )
    else if ends_by input.effective_to_height window.effective_to_height
    then (true, db)
    else (true, record db { windows = update_window window.id (closed input) db.windows })

pub data Opened : Type 0 where
  opened : (written : Bool) → Opened
  refused : Opened

-- the columns that `openActiveWindow` refreshes in a window that is there already
abbrev pub refreshed : OpenWindowInput → Window → Window → Window
refreshed input old w = record w {
  operator_address = or_else input.operator_address old.operator_address;
  consensus_power = or_else input.consensus_power old.consensus_power;
  validator_update_height = or_else input.validator_update_height old.validator_update_height;
}

abbrev pub conflict : OpenWindowInput → Db → Opened × Db
conflict input db = (
  refused,
  create_failure input.source_height input.opened_by_event_id none temporal_window_conflict db,
)

abbrev pub close_of_open : OpenWindowInput → CloseInput
close_of_open input = record {
  effective_to_height = input.effective_from_height;
  closed_by_kind = input.opened_by_kind;
  closed_by_event_id = input.opened_by_event_id;
  closed_by_rotation_id = input.opened_by_rotation_id;
  closed_by_lifecycle_id = input.opened_by_lifecycle_id;
  source_height = input.source_height;
}

-- The loop over the slot's open windows: `false` where it met one that does not start earlier.
unfoldable pub close_earlier : OpenWindowInput → List Window → Db → Bool × Db
unfolding close_window
close_earlier input [] db = (true, db)
close_earlier input (w ∷ ws) db =
    let rest = close_earlier input ws (close_window w (close_of_open input) db).1 in
    if leb input.effective_from_height w.effective_from_height
    then (
      false,
      create_failure input.source_height input.opened_by_event_id none temporal_window_conflict db,
    )
    else rest

abbrev pub new_window : OpenWindowInput → ℕ → Window
new_window input id = record {
  id = id;
  slot_id = input.slot_id;
  operator_address = input.operator_address;
  consensus_address = input.consensus_address;
  status = active_status;
  consensus_power = input.consensus_power;
  validator_update_height = input.validator_update_height;
  effective_from_height = input.effective_from_height;
  effective_to_height = none;
  opened_by_kind = input.opened_by_kind;
  opened_by_event_id = input.opened_by_event_id;
  opened_by_rotation_id = input.opened_by_rotation_id;
  opened_by_lifecycle_id = input.opened_by_lifecycle_id;
  closed_by_kind = none;
  closed_by_event_id = none;
  closed_by_rotation_id = none;
  closed_by_lifecycle_id = none;
}

-- the new row, unless windows of other slots have the address at the height
abbrev pub create_unless : OpenWindowInput → List Window → Db → Opened × Db
create_unless input [] db = (
  opened true,
  record db { windows = db.windows ++ new_window input db.next_id ∷ []; next_id = db.next_id + 1 },
)
create_unless input (w ∷ ws) db = conflict input db

-- the part of `openActiveWindow` after the slot's windows have been closed
unfoldable pub create_window : OpenWindowInput → Db → Opened × Db
unfolding find_consensus_windows_at_height create_failure
create_window input db =
    create_unless input
      (keep_if (λ w. not (w.slot_id == input.slot_id))
        (find_consensus_windows_at_height input.consensus_address input.effective_from_height
          db.windows))
      db

abbrev pub open_after : OpenWindowInput → Bool × Db → Opened × Db
open_after input (false, db) = (refused, db)
open_after input (true, db) = create_window input db

abbrev pub open_unless : OpenWindowInput → Option Window → Db → Opened × Db
open_unless input (some same) db =
    (opened false, record db { windows = update_window same.id (refreshed input same) db.windows })
open_unless input none db =
    open_after input (close_earlier input (find_open_slot_windows input.slot_id db.windows) db)

-- `openActiveWindow`
unfoldable pub open_active_window : OpenWindowInput → Db → Opened × Db
unfolding create_window close_earlier find_open_slot_windows update_window
    find_slot_consensus_window_at_height
open_active_window input db =
    open_unless input
      (find_slot_consensus_window_at_height input.slot_id input.consensus_address
        input.effective_from_height db.windows)
      db

pub data Closed : Type 0 where
  closed_all : (written : ℕ) → Closed
  not_closed : Closed

-- the last loop of `closeActiveWindows`
unfoldable pub close_each : CloseInput → ℕ → List Window → Db → Closed × Db
unfolding close_window
close_each input written [] db = (closed_all written, db)
close_each input written (w ∷ ws) db =
    let step = close_window w input db in
    let rest = close_each input (written + 1) ws step.1 in
    if step.0 then rest else (not_closed, step.1)

abbrev pub close_selected : CloseWindowInput → List Window → Db → Closed × Db
close_selected input [] db =
    if input.require_window
    then (
      not_closed,
      create_failure input.close.source_height input.close.closed_by_event_id none
          missing_activation_window db,
    )
    else (closed_all 0, db)
close_selected input (w ∷ ws) db = close_each input.close 0 (w ∷ ws) db

abbrev normalized_arg : AddressArg → Option OptionalNormalized
normalized_arg omitted = none
normalized_arg (given address) = some (normalize_optional_consensus_address address)

abbrev pub close_matching :
    CloseWindowInput → Option OptionalNormalized → List Window → Db → Closed × Db
close_matching input (some malformed) windows db = (
  not_closed,
  create_failure input.close.source_height input.close.closed_by_event_id none
      invalid_consensus_address db,
)
close_matching input (some (present address)) windows db =
    close_selected input (keep_if (λ w. eq_text w.consensus_address address) windows) db
close_matching input (some absent) windows db =
    if ltb 1 (length windows)
    then (
      not_closed,
      create_failure input.close.source_height input.close.closed_by_event_id none
          temporal_window_ambiguous db,
    )
    else close_selected input windows db
close_matching input none windows db = close_selected input windows db

-- `closeActiveWindows`
unfoldable pub close_active_windows : CloseWindowInput → Db → Closed × Db
unfolding close_each find_open_slot_windows create_failure
close_active_windows input db =
    close_matching input (normalized_arg input.consensus_address)
      (find_open_slot_windows input.slot_id db.windows) db
