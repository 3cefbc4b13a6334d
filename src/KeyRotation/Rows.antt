-- ===== src/KeyRotation/Rows.antt =====
-- The row writers of coreslot-key-rotation.ts. An insert takes the next id of the sequence; an
-- `upsert` takes one whether it inserts or not, as sequences may skip.
use twilight_core_explorer.Common.{
  ℕ, ◌+◌, Bool, Option, none, some, List, [], ◌∷◌, ◌++◌, or_else, ◌==◌, if◌then◌else◌,
}
use twilight_core_explorer.Text.{Text}
use twilight_core_explorer.Projection.Failure.{eq_opt_nat}
use twilight_core_explorer.KeyRotation.Columns.{
  message_id, message_tx, message_index, message_height, blank,
}
use twilight_core_explorer.KeyRotation.Slots.{update_projection_consensus_address}
use twilight_core_explorer.KeyRotation.Types.{
  MessageSource, EventSource, requested, applied, immediate_applied, cancelled, Rotation, Payload,
  RotationDb,
}

-- The columns by which a row is one with an event: each is unique.
abbrev pub Key : Type 0
Key = Rotation → Option ℕ

abbrev pub by_request : Key
by_request r = r.source_request_event_id

abbrev pub by_applied : Key
by_applied r = r.source_applied_event_id

abbrev pub by_cancelled : Key
by_cancelled r = r.source_cancelled_event_id

abbrev pub has_event : Key → ℕ → Rotation → Bool
has_event key event r = eq_opt_nat (key r) (some event)

-- `findFirst` by an event
unfoldable pub find_by_event : Key → ℕ → List Rotation → Option Rotation
find_by_event key event [] = none
find_by_event key event (r ∷ rs) =
    if has_event key event r then some r else find_by_event key event rs

-- `upsert` by an event
unfoldable pub upsert_by_event :
    Key → ℕ → Rotation → (Rotation → Rotation) → List Rotation → List Rotation
upsert_by_event key event create update [] = create ∷ []
upsert_by_event key event create update (r ∷ rs) =
    if has_event key event r then update r ∷ rs else r ∷ upsert_by_event key event create update rs

-- `update` by the id
unfoldable pub update_by_id : ℕ → (Rotation → Rotation) → List Rotation → List Rotation
update_by_id id update [] = []
update_by_id id update (r ∷ rs) =
    if r.id == id then update r ∷ rs else r ∷ update_by_id id update rs

abbrev pub with_rotations : RotationDb → List Rotation → RotationDb
with_rotations db rs = record db { rotations = rs; next_id = db.next_id + 1 }

-- `requestFields`; the status and the event are set at the insert alone
abbrev pub request_fields :
    Option MessageSource → EventSource → Payload → Option Text → Rotation → Rotation
request_fields message event payload operator r = record r {
  slot_id = payload.slot_id;
  operator_address = or_else operator payload.operator_address;
  old_consensus_address = payload.old_consensus_address;
  new_consensus_address = payload.new_consensus_address;
  requested_height = some (message_height message event.height);
  effective_height = payload.effective_height;
  source_message_id = message_id message;
  request_tx_hash = or_else (message_tx message) event.tx_hash;
  request_msg_index = or_else (message_index message) event.msg_index;
}

-- `upsertRequestedRotation`
unfoldable pub upsert_requested_rotation :
    Option MessageSource → EventSource → Payload → Option Text → RotationDb → RotationDb
unfolding upsert_by_event
upsert_requested_rotation message event payload operator db =
    let fields = request_fields message event payload operator in
    let new = blank db.next_id payload.slot_id in
    with_rotations db (
      upsert_by_event by_request event.id
        (fields (record new { status = requested; source_request_event_id = some event.id })) fields
        db.rotations)

abbrev pub immediate_fields :
    MessageSource → EventSource → Payload → Option Text → Rotation → Rotation
immediate_fields message event payload operator r = record r {
  status = immediate_applied;
  slot_id = payload.slot_id;
  operator_address = or_else operator payload.operator_address;
  old_consensus_address = payload.old_consensus_address;
  new_consensus_address = payload.new_consensus_address;
  requested_height = some message.height;
  effective_height = payload.effective_height;
  applied_height = some event.height;
  power = payload.power;
  source_message_id = some message.id;
  applied_tx_hash = or_else event.tx_hash (some message.tx_hash);
  applied_msg_index = or_else event.msg_index (some message.msg_index);
}

-- `upsertImmediateAppliedRotation`
unfoldable pub upsert_immediate_applied_rotation :
    MessageSource → EventSource → Payload → Option Text → RotationDb → RotationDb
unfolding upsert_by_event update_projection_consensus_address
upsert_immediate_applied_rotation message event payload operator db =
    let fields = immediate_fields message event payload operator in
    let new = blank db.next_id payload.slot_id in
    update_projection_consensus_address event payload (some message)
      (or_else operator payload.operator_address)
      (with_rotations db (
        upsert_by_event by_applied event.id
          (fields (record new { source_applied_event_id = some event.id })) fields db.rotations))

-- `data` of `markRotationApplied`
abbrev pub applied_fields : EventSource → Payload → Rotation → Rotation
applied_fields event payload r = record r {
  status = applied;
  applied_height = some event.height;
  power = payload.power;
  old_consensus_address = payload.old_consensus_address;
  new_consensus_address = payload.new_consensus_address;
  effective_height = payload.effective_height;
  source_applied_event_id = some event.id;
  applied_tx_hash = event.tx_hash;
  applied_msg_index = event.msg_index;
}

-- `markRotationApplied`
unfoldable pub mark_rotation_applied : ℕ → EventSource → Payload → RotationDb → RotationDb
unfolding update_by_id
mark_rotation_applied id event payload db = record db {
  rotations = update_by_id id (applied_fields event payload) db.rotations;
}

-- `createAppliedRotation`
unfoldable pub create_applied_rotation : EventSource → Payload → RotationDb → RotationDb
create_applied_rotation event payload db =
    let new = blank db.next_id payload.slot_id in
    with_rotations db (
      db.rotations
      ++ (applied_fields event payload (record new { operator_address = payload.operator_address })
          ∷ []))

-- `data` of `markRotationCancelled`
abbrev pub cancelled_fields : EventSource → Payload → Rotation → Rotation
cancelled_fields event payload r = record r {
  status = cancelled;
  cancelled_height = some event.height;
  reason = payload.reason;
  source_cancelled_event_id = some event.id;
  cancelled_tx_hash = event.tx_hash;
  cancelled_msg_index = event.msg_index;
}

-- `markRotationCancelled`
unfoldable pub mark_rotation_cancelled : ℕ → EventSource → Payload → RotationDb → RotationDb
unfolding update_by_id
mark_rotation_cancelled id event payload db = record db {
  rotations = update_by_id id (cancelled_fields event payload) db.rotations;
}

-- `createCancelledRotation`
unfoldable pub create_cancelled_rotation : EventSource → Payload → RotationDb → RotationDb
create_cancelled_rotation event payload db =
    let new = blank db.next_id payload.slot_id in
    with_rotations db (
      db.rotations
      ++ (cancelled_fields event payload (record new {
        operator_address = payload.operator_address;
        old_consensus_address = payload.old_consensus_address;
        new_consensus_address = payload.new_consensus_address;
      })
          ∷ []))
