-- ===== src/KeyRotation/Types.antt =====
-- The rows of coreslot-key-rotation.ts. The raw JSON that rows carry along is left out. An event's
-- attributes and a message's decoded fields come as their keys with what `readString` reads of the
-- value: a text, the text of a number, or nothing.
use twilight_core_explorer.Common.{ℕ, String, Option, List}
use twilight_core_explorer.Text.{Text}
use twilight_core_explorer.Text.Integers.{ℤ}
use twilight_core_explorer.Projection.Cursor.{ProjectionCursor}
use twilight_core_explorer.Projection.Failure.{Failure}

-- `TransactionSource`
pub record TransactionSource : Type 0 where
  pub hash : String
  pub height : ℕ
  pub code : Option ℕ
  pub status : String

-- one attribute, or one field
pub record Attribute : Type 0 where
  pub key : Option Text
  pub value : Option Text

-- `MessageSource`
pub record MessageSource : Type 0 where
  pub id : ℕ
  pub tx_hash : String
  pub height : ℕ
  pub msg_index : ℕ
  pub type_url : String
  pub module_name : Option String
  pub decoded : List Attribute

-- `EventSource`
pub record EventSource : Type 0 where
  pub id : ℕ
  pub height : ℕ
  pub tx_hash : Option String
  pub msg_index : Option ℕ
  pub event_type : String
  pub attributes : List Attribute

-- `CORESLOT_KEY_ROTATION_STATUS`
pub data RotationStatus : Type 0 where
  requested applied immediate_applied cancelled : RotationStatus

-- a row of the rotations' table
pub record Rotation : Type 0 where
  pub id : ℕ
  pub slot_id : ℤ
  pub operator_address : Option Text
  pub old_consensus_address : Option Text
  pub new_consensus_address : Option Text
  pub status : RotationStatus
  pub requested_height : Option ℕ
  pub effective_height : Option ℤ
  pub applied_height : Option ℕ
  pub cancelled_height : Option ℕ
  pub power : Option ℤ
  pub reason : Option Text
  pub source_message_id : Option ℕ
  pub source_request_event_id : Option ℕ
  pub source_applied_event_id : Option ℕ
  pub source_cancelled_event_id : Option ℕ
  pub request_tx_hash : Option String
  pub request_msg_index : Option ℕ
  pub applied_tx_hash : Option String
  pub applied_msg_index : Option ℕ
  pub cancelled_tx_hash : Option String
  pub cancelled_msg_index : Option ℕ

-- `RotationEventPayload`
pub record Payload : Type 0 where
  pub slot_id : ℤ
  pub operator_address : Option Text
  pub old_consensus_address : Option Text
  pub new_consensus_address : Option Text
  pub power : Option ℤ
  pub effective_height : Option ℤ
  pub reason : Option Text

-- the columns of a slot's row that this projection writes
pub record SlotRow : Type 0 where
  pub slot_id : ℤ
  pub consensus_address : Text
  pub operator_address : Option Text
  pub consensus_power : Option ℤ
  pub updated_height : ℕ
  pub last_source_height : ℕ
  pub last_source_tx_hash : Option String
  pub last_source_msg_index : Option ℕ
  pub last_source_message_id : Option ℕ
  pub last_source_event_id : ℕ

-- The tables that the projection reads.
pub record Chain : Type 0 where
  pub transactions : List TransactionSource
  pub messages : List MessageSource
  pub events : List EventSource

-- The tables that it writes. `next_id` is the sequence of the rotations' ids.
pub record RotationDb : Type 0 where
  pub rotations : List Rotation
  pub next_id : ℕ
  pub slots : List SlotRow
  pub failures : List Failure
  pub cursors : List ProjectionCursor

-- `Counters`
pub record RotationCounters : Type 0 where
  pub rotations_written : ℕ
  pub failures_created : ℕ
