-- ===== src/KeyRotation/Failures.antt =====
-- `createFailure` of coreslot-key-rotation.ts.
use twilight_core_explorer.Common.{ℕ, String, false, Option, none, some, or_else}
use twilight_core_explorer.Projection.Failure.{FailureKind, upsert_failure}
use twilight_core_explorer.KeyRotation.Types.{MessageSource, EventSource, RotationDb}
use twilight_core_explorer.KeyRotation.Columns.{
  message_id, message_tx, message_index, message_height, message_type_url,
}

abbrev pub rotation_projection : String
rotation_projection = "coreslot_key_rotation_v1"

-- `createFailure`
unfoldable pub create_rotation_failure :
    Option MessageSource → Option EventSource → FailureKind → RotationDb → RotationDb
unfolding upsert_failure
create_rotation_failure message event kind db = record db {
  failures =
      upsert_failure
        (record {
          projection_name = rotation_projection;
          failure_kind = kind;
          source_height = message_height message (event_height event);
          source_tx_hash = or_else (message_tx message) (event_tx event);
          source_msg_index = or_else (message_index message) (event_index event);
          source_message_id = message_id message;
          source_event_id = event_id event;
          type_url = message_type_url message;
          event_type = event_type_of event;
          resolved = false;
        })
        db.failures;
}
  where
    event_height : Option EventSource → ℕ
    event_height none = 0
    event_height (some e) = e.height

    event_tx : Option EventSource → Option String
    event_tx none = none
    event_tx (some e) = e.tx_hash

    event_index : Option EventSource → Option ℕ
    event_index none = none
    event_index (some e) = e.msg_index

    event_id : Option EventSource → Option ℕ
    event_id none = none
    event_id (some e) = some e.id

    event_type_of : Option EventSource → Option String
    event_type_of none = none
    event_type_of (some e) = some e.event_type
