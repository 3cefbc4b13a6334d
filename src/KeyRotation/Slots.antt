-- ===== src/KeyRotation/Slots.antt =====
-- `updateProjectionConsensusAddress` of coreslot-key-rotation.ts: the slot's row takes the new address.
use twilight_core_explorer.Common.{Option, none, some, List, [], ◌∷◌, or_else, if◌then◌else◌}
use twilight_core_explorer.Text.{Text}
use twilight_core_explorer.Text.Integers.{ℤ, eq_int}
use twilight_core_explorer.KeyRotation.Types.{
  MessageSource, EventSource, Payload, SlotRow, RotationDb,
}
use twilight_core_explorer.KeyRotation.Columns.{message_id, message_tx, message_index}

abbrev slot_update :
    EventSource → Payload → Option MessageSource → Option Text → Text → SlotRow → SlotRow
slot_update event payload message operator address r = record r {
  consensus_address = address;
  operator_address = or_else (or_else operator payload.operator_address) r.operator_address;
  consensus_power = or_else payload.power r.consensus_power;
  updated_height = event.height;
  last_source_height = event.height;
  last_source_tx_hash = or_else event.tx_hash (message_tx message);
  last_source_msg_index = or_else event.msg_index (message_index message);
  last_source_message_id = message_id message;
  last_source_event_id = event.id;
}

abbrev new_slot : EventSource → ℤ → Text → SlotRow
new_slot event slot address = record {
  slot_id = slot;
  consensus_address = address;
  operator_address = none;
  consensus_power = none;
  updated_height = event.height;
  last_source_height = event.height;
  last_source_tx_hash = none;
  last_source_msg_index = none;
  last_source_message_id = none;
  last_source_event_id = event.id;
}

unfoldable pub upsert_slot : ℤ → SlotRow → (SlotRow → SlotRow) → List SlotRow → List SlotRow
upsert_slot slot create update [] = create ∷ []
upsert_slot slot create update (r ∷ rs) =
    if eq_int r.slot_id slot then update r ∷ rs else r ∷ upsert_slot slot create update rs

abbrev pub set_address :
    EventSource
    → Payload
    → Option MessageSource
    → Option Text
    → Option Text
    → RotationDb
    → RotationDb
set_address event payload message operator none db = db
set_address event payload message operator (some []) db = db
set_address event payload message operator (some (c ∷ s)) db =
    let update = slot_update event payload message operator (c ∷ s) in
    record db {
      slots =
          upsert_slot payload.slot_id (update (new_slot event payload.slot_id (c ∷ s))) update
            db.slots;
    }

-- `updateProjectionConsensusAddress`
unfoldable pub update_projection_consensus_address :
    EventSource → Payload → Option MessageSource → Option Text → RotationDb → RotationDb
unfolding upsert_slot
update_projection_consensus_address event payload message operator db =
    set_address event payload message operator payload.new_consensus_address db
