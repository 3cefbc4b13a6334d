-- ===== src/Temporal/Events.antt =====
-- `projectLifecycleEvent` and `projectRotation` of coreslot-temporal-map.ts: one upstream row, against
-- the window table and the counters of the height.
use twilight_core_explorer.Common.{
  ℕ, ◌+◌, Bool, true, false, ◌||◌, Option, none, some, or_else, with_default, str_eq, is_some,
  if◌then◌else◌,
}
use twilight_core_explorer.Text.{
  Text, Normalized, ok, invalid, normalize_consensus_address, OptionalNormalized, absent, present,
  malformed, normalize_optional_consensus_address,
}
use twilight_core_explorer.Projection.Failure.{
  FailureKind, invalid_consensus_address, effective_height_invalid, invalid_slot_id,
  unknown_semantic_type,
}
use twilight_core_explorer.Temporal.Types.{
  LifecycleSource, RotationSource, Db, Counters, OpenWindowInput, CloseWindowInput, omitted, given,
  lifecycle, key_rotation, create_failure,
}
use twilight_core_explorer.Temporal.Table.{find_slot_consensus_window_at_height}
use twilight_core_explorer.Temporal.Window.{
  Opened, opened, refused, open_active_window, Closed, closed_all, not_closed, close_active_windows,
}

-- `VALIDATOR_SET_MEMBERSHIP_OFFSET`
abbrev pub validator_set_membership_offset : ℕ
validator_set_membership_offset = 2

-- `membershipHeightFromValidatorUpdate`
abbrev pub membership_height_from_validator_update : ℕ → ℕ
membership_height_from_validator_update height = height + validator_set_membership_offset

-- `deriveLifecycleValidatorUpdateHeight`
abbrev pub derive_lifecycle_validator_update_height : LifecycleSource → ℕ
derive_lifecycle_validator_update_height event = with_default event.effective_height event.height

-- `deriveRotationValidatorUpdateHeight`
abbrev pub derive_rotation_validator_update_height : RotationSource → Option ℕ
derive_rotation_validator_update_height rotation =
    or_else rotation.effective_height rotation.applied_height

abbrev pub State : Type 0
State = Counters × Db

abbrev pub count_failure : Counters → Counters
count_failure c = record c { failures_created = c.failures_created + 1 }

abbrev pub count_written : ℕ → Counters → Counters
count_written n c = record c { windows_written = c.windows_written + n }

abbrev pub lifecycle_failure : LifecycleSource → FailureKind → State → State
lifecycle_failure event kind (c, db) = (
  count_failure c,
  create_failure event.height (some event.source_event_id) (some event.event_type) kind db,
)

abbrev pub count_opened : Counters → Opened × Db → State
count_opened c (opened true, db) = (count_written 1 c, db)
count_opened c (opened false, db) = (count_written 0 c, db)
count_opened c (refused, db) = (count_failure c, db)

abbrev pub count_closed : Counters → Closed × Db → State
count_closed c (closed_all written, db) = (count_written written c, db)
count_closed c (not_closed, db) = (count_failure c, db)

abbrev pub activation_input : LifecycleSource → ℕ → Text → OpenWindowInput
activation_input event slot address = record {
  slot_id = slot;
  operator_address = event.operator_address;
  consensus_address = address;
  consensus_power = event.power;
  validator_update_height = some (derive_lifecycle_validator_update_height event);
  effective_from_height =
      membership_height_from_validator_update (derive_lifecycle_validator_update_height event);
  opened_by_kind = lifecycle;
  opened_by_event_id = some event.source_event_id;
  opened_by_rotation_id = none;
  opened_by_lifecycle_id = some event.id;
  source_height = event.height;
}

-- the branch of 'coreslot_activated'
abbrev pub project_activated : LifecycleSource → ℕ → Normalized → State → State
project_activated event slot invalid s = lifecycle_failure event invalid_consensus_address s
project_activated event slot (ok address) (c, db) =
    count_opened c (open_active_window (activation_input event slot address) db)

abbrev pub deactivation_input : LifecycleSource → ℕ → CloseWindowInput
deactivation_input event slot = record {
  slot_id = slot;
  consensus_address = omitted;
  close = record {
    effective_to_height =
        membership_height_from_validator_update (derive_lifecycle_validator_update_height event);
    closed_by_kind = lifecycle;
    closed_by_event_id = some event.source_event_id;
    closed_by_rotation_id = none;
    closed_by_lifecycle_id = some event.id;
    source_height = event.height;
  };
  require_window = false;
}

-- the branches on `eventType`, for an event with a slot
abbrev pub project_slot_event : LifecycleSource → ℕ → State → State
project_slot_event event slot (c, db) =
    if str_eq event.event_type "coreslot_registered"
    then (c, db)
    else if str_eq event.event_type "coreslot_activated"
    then project_activated event slot (normalize_consensus_address event.consensus_address) (c, db)
    else if str_eq event.event_type "coreslot_inactivated"
        || str_eq event.event_type "coreslot_suspended"
        || str_eq event.event_type "coreslot_removed"
    then count_closed c (close_active_windows (deactivation_input event slot) db)
    else lifecycle_failure event unknown_semantic_type (c, db)

abbrev pub on_slot : LifecycleSource → Option ℕ → State → State
on_slot event none s = lifecycle_failure event invalid_slot_id s
on_slot event (some slot) s = project_slot_event event slot s

-- `projectLifecycleEvent`
unfoldable pub project_lifecycle_event : LifecycleSource → State → State
project_lifecycle_event event s = on_slot event event.slot_id s

abbrev pub rotation_failure : RotationSource → ℕ → FailureKind → State → State
rotation_failure rotation source_height kind (c, db) =
    (count_failure c, create_failure source_height rotation.source_applied_event_id none kind db)

-- the `sourceHeight` of an applied rotation, projected at `height`
abbrev pub rotation_source_height : RotationSource → ℕ → ℕ
rotation_source_height rotation height =
    with_default rotation.applied_height (with_default rotation.effective_height height)

abbrev pub rotation_open_input : RotationSource → ℕ → Text → ℕ → OpenWindowInput
rotation_open_input rotation height address update_height = record {
  slot_id = rotation.slot_id;
  operator_address = rotation.operator_address;
  consensus_address = address;
  consensus_power = rotation.power;
  validator_update_height = some update_height;
  effective_from_height = membership_height_from_validator_update update_height;
  opened_by_kind = key_rotation;
  opened_by_event_id = rotation.source_applied_event_id;
  opened_by_rotation_id = some rotation.id;
  opened_by_lifecycle_id = none;
  source_height = rotation_source_height rotation height;
}

abbrev pub rotation_close_input : RotationSource → ℕ → Option Text → ℕ → CloseWindowInput
rotation_close_input rotation height old update_height = record {
  slot_id = rotation.slot_id;
  consensus_address = given old;
  close = record {
    effective_to_height = membership_height_from_validator_update update_height;
    closed_by_kind = key_rotation;
    closed_by_event_id = rotation.source_applied_event_id;
    closed_by_rotation_id = some rotation.id;
    closed_by_lifecycle_id = none;
    source_height = rotation_source_height rotation height;
  };
  require_window = elim old [ none ↦ true | some a ↦ false ];
}

abbrev pub open_after_close : OpenWindowInput → Counters → Closed × Db → State
open_after_close input c (not_closed, db) = (count_failure c, db)
open_after_close input c (closed_all written, db) =
    count_opened (count_written written c) (open_active_window input db)

abbrev pub open_rotated : OpenWindowInput → CloseWindowInput → Bool → State → State
open_rotated open_input close_input true (c, db) = count_opened c (open_active_window open_input db)
open_rotated open_input close_input false (c, db) =
    open_after_close open_input c (close_active_windows close_input db)

-- the part of `projectRotation` after the addresses have been read
abbrev pub rotate : RotationSource → ℕ → Text → Option Text → Option ℕ → State → State
rotate rotation height new old none s =
    rotation_failure rotation (rotation_source_height rotation height) effective_height_invalid s
rotate rotation height new old (some update_height) (c, db) =
    open_rotated (rotation_open_input rotation height new update_height)
      (rotation_close_input rotation height old update_height)
      (is_some (
        find_slot_consensus_window_at_height rotation.slot_id new
          (membership_height_from_validator_update update_height) db.windows))
      (c, db)

abbrev pub project_old_address : RotationSource → ℕ → Text → OptionalNormalized → State → State
project_old_address rotation height new malformed s =
    rotation_failure rotation (rotation_source_height rotation height) invalid_consensus_address s
project_old_address rotation height new absent s =
    rotate rotation height new none (derive_rotation_validator_update_height rotation) s
project_old_address rotation height new (present old) s =
    rotate rotation height new (some old) (derive_rotation_validator_update_height rotation) s

abbrev pub project_applied : RotationSource → ℕ → Normalized → State → State
project_applied rotation height invalid s =
    rotation_failure rotation (rotation_source_height rotation height) invalid_consensus_address s
project_applied rotation height (ok new) s =
    project_old_address rotation height new
      (normalize_optional_consensus_address rotation.old_consensus_address) s

-- `projectRotation`, at the height that is being processed
unfoldable pub project_rotation : ℕ → RotationSource → State → State
project_rotation height rotation s =
    if str_eq rotation.status "requested" || str_eq rotation.status "cancelled"
    then s
    else if str_eq rotation.status "applied" || str_eq rotation.status "immediate_applied"
    then project_applied rotation height
        (normalize_consensus_address rotation.new_consensus_address) s
    else rotation_failure rotation
        (with_default rotation.applied_height (with_default rotation.cancelled_height height))
        unknown_semantic_type s
