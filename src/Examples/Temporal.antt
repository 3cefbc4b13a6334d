-- ===== src/Examples/Temporal.antt =====
-- Small window tables and upstream rows for the temporal map (coreslot-temporal-map.ts).
use twilight_core_explorer.Common.{none, some, [], ◌∷◌}
use twilight_core_explorer.Text.{Text, codes}
use twilight_core_explorer.Temporal.Types.{
  Window, LifecycleSource, RotationSource, Db, active_status, lifecycle,
}
use twilight_core_explorer.Temporal.Height.{Upstream}

abbrev pub address : Text
address = codes "00112233445566778899aabbccddeeff00112233"

abbrev pub other_address : Text
other_address = codes "ff112233445566778899aabbccddeeff00112233"

-- Slot 7 is active from height 7.
abbrev pub first_window : Window
first_window = record {
  id = 1;
  slot_id = 7;
  operator_address = none;
  consensus_address = address;
  status = active_status;
  consensus_power = some 10;
  validator_update_height = some 5;
  effective_from_height = 7;
  effective_to_height = none;
  opened_by_kind = lifecycle;
  opened_by_event_id = some 20;
  opened_by_rotation_id = none;
  opened_by_lifecycle_id = some 1;
  closed_by_kind = none;
  closed_by_event_id = none;
  closed_by_rotation_id = none;
  closed_by_lifecycle_id = none;
}

abbrev pub start : Db
start = record { windows = first_window ∷ []; next_id = 2; failures = []; cursors = [] }

-- At height 9 the slot's key is rotated, and at height 12 the slot is suspended.
abbrev pub rotation : RotationSource
rotation = record {
  id = 3;
  slot_id = 7;
  operator_address = none;
  old_consensus_address = some address;
  new_consensus_address = some (codes " FF112233445566778899AABBCCDDEEFF00112233");
  status = "applied";
  requested_height = some 8;
  effective_height = none;
  applied_height = some 9;
  cancelled_height = none;
  power = some 10;
  source_applied_event_id = some 31;
}

abbrev pub suspension : LifecycleSource
suspension = record {
  id = 4;
  source_event_id = 40;
  height = 12;
  slot_id = some 7;
  event_type = "coreslot_suspended";
  operator_address = none;
  consensus_address = none;
  power = none;
  effective_height = none;
}

abbrev pub upstream : Upstream
upstream = record { lifecycle_events = suspension ∷ []; rotations = rotation ∷ [] }
