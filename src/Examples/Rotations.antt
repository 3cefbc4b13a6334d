-- ===== src/Examples/Rotations.antt =====
-- A rotation that is asked for at height 5 and applied at the end of block 8, and an event of a failed
-- transaction.
use twilight_core_explorer.Common.{
  ◌⊎◌, ℕ, ◌≡◌, refl, inl, String, Option, none, some, List, [], ◌∷◌, map,
}
use twilight_core_explorer.Text.{codes}
use twilight_core_explorer.Text.Integers.{pos}
use twilight_core_explorer.Temporal.Lists.{In}
use twilight_core_explorer.KeyRotation.Types.{
  Payload, Attribute, EventSource, Rotation, RotationStatus, requested, applied, Chain, RotationDb,
}
use twilight_core_explorer.KeyRotation.Columns.{blank}
use twilight_core_explorer.KeyRotation.Events.{
  read_event_attr, parse_slot_id, extracted, extract_rotation_event_payload,
}
use twilight_core_explorer.KeyRotation.Projection.{event_slot, project_applied_event}
use twilight_core_explorer.KeyRotation.Recorded.{
  IsRecorded, IsAmbiguous, project_applied-IsRecorded,
}
use twilight_core_explorer.KeyRotation.Height.{
  begin_rotations, project_core_slot_key_rotation_range, project_rotation_rows,
}
use twilight_core_explorer.KeyRotation.Failed.{without_failed, project_rows-without_failed}
use twilight_core_explorer.KeyRotation.Invariant.{IsSound, Forward}
use twilight_core_explorer.KeyRotation.Invariant.Heights.{range-IsSound, range-Forward}

abbrev attribute_of : String → String → Attribute
attribute_of key value = record { key = some (codes key); value = some (codes value) }

abbrev new_key : String
new_key = "00112233445566778899aabbccddeeff00112233"

abbrev rotation_attributes : List Attribute
rotation_attributes =
    attribute_of "slot_id" "7"
    ∷ attribute_of "new_consensus_address" new_key
    ∷ attribute_of "effective_height" "8"
    ∷ []

abbrev request_event : EventSource
request_event = record {
  id = 1;
  height = 5;
  tx_hash = some "T1";
  msg_index = some 0;
  event_type = "coreslot_key_rotation_requested";
  attributes = rotation_attributes;
}

abbrev applied_event : EventSource
applied_event = record {
  id = 2;
  height = 8;
  tx_hash = none;
  msg_index = none;
  event_type = "coreslot_key_rotated";
  attributes = rotation_attributes;
}

abbrev failed_event : EventSource
failed_event = record {
  id = 3;
  height = 5;
  tx_hash = some "T2";
  msg_index = some 0;
  event_type = "coreslot_key_rotation_requested";
  attributes = rotation_attributes;
}

abbrev rotation_chain : Chain
rotation_chain = record {
  transactions = record { hash = "T1"; height = 5; code = some 0; status = "success" } ∷ [];
  messages =
      record {
        id = 11;
        tx_hash = "T1";
        height = 5;
        msg_index = 0;
        type_url = "/twilight.coreslot.v1.MsgRotateConsensusKey";
        module_name = some "coreslot";
        decoded = attribute_of "slot_id" "7" ∷ attribute_of "operator" "twilight1op" ∷ [];
      }
      ∷ [];
  events = request_event ∷ failed_event ∷ applied_event ∷ [];
}

abbrev no_rotations : RotationDb
no_rotations = record { rotations = []; next_id = 1; slots = []; failures = []; cursors = [] }

abbrev no_fault : ℕ → Option String
no_fault height = none

abbrev after_request : RotationDb
after_request =
    (project_core_slot_key_rotation_range "c" rotation_chain no_fault 1 5 no_rotations).1

asked_for : map (λ r. r.status) after_request.rotations ≡ requested ∷ []
unfolding project_core_slot_key_rotation_range
asked_for = refl

abbrev applied_at : List Rotation → List (RotationStatus × Option ℕ)
applied_at = map (λ r. (r.status, r.applied_height))

applied_later :
    applied_at
      (project_core_slot_key_rotation_range "c" rotation_chain no_fault 3 6
        after_request).1.rotations
    ≡ (applied, some 8) ∷ []
unfolding project_core_slot_key_rotation_range
applied_later = refl

no_rotations-IsSound : IsSound 1 []
no_rotations-IsSound = record { rows = tt; apart = tt }

range-IsSound_example : IsSound after_request.next_id after_request.rotations
range-IsSound_example =
    range-IsSound "c" rotation_chain no_fault 1 5 no_rotations no_rotations-IsSound

-- the row that the request made
abbrev first_row : List Rotation → Rotation
first_row [] = blank 0 (pos 0)
first_row (r ∷ rs) = r

is_there : In (first_row after_request.rotations) after_request.rotations
unfolding project_core_slot_key_rotation_range
is_there = inl refl

range-Forward_example :
    (s : Rotation) × (In s
        (project_core_slot_key_rotation_range "c" rotation_chain no_fault 3 6
          after_request).1.rotations
      × Forward (first_row after_request.rotations) s)
range-Forward_example =
    range-Forward "c" rotation_chain no_fault 3 6 after_request (first_row after_request.rotations)
      (range-IsSound "c" rotation_chain no_fault 1 5 no_rotations no_rotations-IsSound) is_there

project_rows-without_failed_example :
    project_rotation_rows 5 (without_failed 5 rotation_chain) no_rotations
    ≡ project_rotation_rows 5 rotation_chain no_rotations
project_rows-without_failed_example = project_rows-without_failed 5 rotation_chain no_rotations

abbrev payload_8 : Payload
payload_8 = record {
  slot_id = pos 7;
  operator_address = none;
  old_consensus_address = none;
  new_consensus_address = some (codes new_key);
  power = none;
  effective_height = some (pos 8);
  reason = none;
}

at_slot : event_slot applied_event ≡ some (pos 7)
unfolding read_event_attr parse_slot_id
at_slot = refl

at_payload : extract_rotation_event_payload applied_event (pos 7) ≡ extracted payload_8
unfolding extract_rotation_event_payload
at_payload = refl

project_applied-IsRecorded_example :
    IsRecorded applied_event
      (project_applied_event applied_event (begin_rotations 8 after_request)).1.rotations
    ⊎ IsAmbiguous payload_8 (begin_rotations 8 after_request).1
project_applied-IsRecorded_example =
    project_applied-IsRecorded applied_event (begin_rotations 8 after_request) (pos 7) payload_8
      (range-IsSound "c" rotation_chain no_fault 1 5 no_rotations no_rotations-IsSound) at_slot
      at_payload
