-- ===== src/Temporal/Types.antt =====
-- The rows of coreslot-temporal-map.ts. Heights, ids and powers are natural numbers. The payload
-- columns rawOpenJson and rawCloseJson, which no code of the projection reads, are left out.
use twilight_core_explorer.Common.{none, ℕ, String, Bool, false, Option, List}
use twilight_core_explorer.Text.{Text}
use twilight_core_explorer.Projection.Cursor.{ProjectionCursor}
use twilight_core_explorer.Projection.Failure.{Failure, FailureKind, upsert_failure}

abbrev pub temporal_map_projection : String
temporal_map_projection = "coreslot_temporal_map_v1"

abbrev pub active_status : String
active_status = "ACTIVE"

-- `openedByKind` and `closedByKind`
pub data Origin : Type 0 where
  genesis lifecycle key_rotation : Origin

-- `ConsensusWindowSource`
pub record Window : Type 0 where
  pub id : ℕ
  pub slot_id : ℕ
  pub operator_address : Option Text
  pub consensus_address : Text
  pub status : String
  pub consensus_power : Option ℕ
  pub validator_update_height : Option ℕ
  pub effective_from_height : ℕ
  pub effective_to_height : Option ℕ
  pub opened_by_kind : Origin
  pub opened_by_event_id : Option ℕ
  pub opened_by_rotation_id : Option ℕ
  pub opened_by_lifecycle_id : Option ℕ
  pub closed_by_kind : Option Origin
  pub closed_by_event_id : Option ℕ
  pub closed_by_rotation_id : Option ℕ
  pub closed_by_lifecycle_id : Option ℕ

-- `LifecycleSource`; `effective_height` is what `readJsonHeight(rawEventJson, 'effective_height')`
-- reads from the event's payload.
pub record LifecycleSource : Type 0 where
  pub id : ℕ
  pub source_event_id : ℕ
  pub height : ℕ
  pub slot_id : Option ℕ
  pub event_type : String
  pub operator_address : Option Text
  pub consensus_address : Option Text
  pub power : Option ℕ
  pub effective_height : Option ℕ

-- `RotationSource`, with the requested height by which rows are selected
pub record RotationSource : Type 0 where
  pub id : ℕ
  pub slot_id : ℕ
  pub operator_address : Option Text
  pub old_consensus_address : Option Text
  pub new_consensus_address : Option Text
  pub status : String
  pub requested_height : Option ℕ
  pub effective_height : Option ℕ
  pub applied_height : Option ℕ
  pub cancelled_height : Option ℕ
  pub power : Option ℕ
  pub source_applied_event_id : Option ℕ

-- The tables that the projection writes. `next_id` is the sequence of the window ids.
pub record Db : Type 0 where
  pub windows : List Window
  pub next_id : ℕ
  pub failures : List Failure
  pub cursors : List ProjectionCursor

pub record Counters : Type 0 where
  pub windows_written : ℕ
  pub failures_created : ℕ

pub record OpenWindowInput : Type 0 where
  pub slot_id : ℕ
  pub operator_address : Option Text
  pub consensus_address : Text
  pub consensus_power : Option ℕ
  pub validator_update_height : Option ℕ
  pub effective_from_height : ℕ
  pub opened_by_kind : Origin
  pub opened_by_event_id : Option ℕ
  pub opened_by_rotation_id : Option ℕ
  pub opened_by_lifecycle_id : Option ℕ
  pub source_height : ℕ

-- `input` of `closeWindow`
pub record CloseInput : Type 0 where
  pub effective_to_height : ℕ
  pub closed_by_kind : Origin
  pub closed_by_event_id : Option ℕ
  pub closed_by_rotation_id : Option ℕ
  pub closed_by_lifecycle_id : Option ℕ
  pub source_height : ℕ

-- The argument `consensusAddress` of `closeActiveWindows`: left out, or given (perhaps as null).
pub data AddressArg : Type 0 where
  omitted : AddressArg
  given : Option Text → AddressArg

-- `CloseWindowInput`
pub record CloseWindowInput : Type 0 where
  pub slot_id : ℕ
  pub consensus_address : AddressArg
  pub close : CloseInput
  pub require_window : Bool

-- `createFailure`
unfoldable pub create_failure : ℕ → Option ℕ → Option String → FailureKind → Db → Db
unfolding upsert_failure
create_failure source_height source_event_id event_type kind db = record db {
  failures =
      upsert_failure
        (record {
          projection_name = temporal_map_projection;
          failure_kind = kind;
          source_height = source_height;
          source_tx_hash = none;
          source_msg_index = none;
          source_message_id = none;
          source_event_id = source_event_id;
          type_url = none;
          event_type = event_type;
          resolved = false;
        })
        db.failures;
}
