-- ===== src/KeyRotation/Columns.antt =====
-- What the columns of coreslot-key-rotation.ts's rows take from a message that may be missing
-- (`message?.id` and the like), and the row before its columns are set.
use twilight_core_explorer.Common.{ℕ, String, Option, none, some}
use twilight_core_explorer.Text.Integers.{ℤ}
use twilight_core_explorer.KeyRotation.Types.{MessageSource, Rotation, requested}

abbrev pub message_id : Option MessageSource → Option ℕ
message_id none = none
message_id (some m) = some m.id

abbrev pub message_tx : Option MessageSource → Option String
message_tx none = none
message_tx (some m) = some m.tx_hash

abbrev pub message_index : Option MessageSource → Option ℕ
message_index none = none
message_index (some m) = some m.msg_index

abbrev pub message_height : Option MessageSource → ℕ → ℕ
message_height none height = height
message_height (some m) height = m.height

abbrev pub message_type_url : Option MessageSource → Option String
message_type_url none = none
message_type_url (some m) = some m.type_url

-- a row with nothing but its id, its slot and the columns that are null unless they are set
abbrev pub blank : ℕ → ℤ → Rotation
blank id slot = record {
  id = id;
  slot_id = slot;
  operator_address = none;
  old_consensus_address = none;
  new_consensus_address = none;
  status = requested;
  requested_height = none;
  effective_height = none;
  applied_height = none;
  cancelled_height = none;
  power = none;
  reason = none;
  source_message_id = none;
  source_request_event_id = none;
  source_applied_event_id = none;
  source_cancelled_event_id = none;
  request_tx_hash = none;
  request_msg_index = none;
  applied_tx_hash = none;
  applied_msg_index = none;
  cancelled_tx_hash = none;
  cancelled_msg_index = none;
}
