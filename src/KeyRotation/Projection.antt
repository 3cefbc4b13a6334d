-- ===== src/KeyRotation/Projection.antt =====
-- One message or event of coreslot-key-rotation.ts against the table of rotations. The events that a
-- message has used are their ids.
use twilight_core_explorer.Common.{
  ℕ, ◌+◌, Bool, true, false, not, ◌&&◌, Option, none, some, List, [], ◌∷◌, keep_if, any, ◌==◌,
}
use twilight_core_explorer.Text.{Text, eq_text}
use twilight_core_explorer.Text.Integers.{ℤ, eq_int}
use twilight_core_explorer.Projection.Failure.{
  FailureKind, invalid_slot_id, ambiguous_event, missing_event, missing_message, missing_request,
  rotation_correlation_failed,
}
use twilight_core_explorer.KeyRotation.Types.{
  MessageSource, EventSource, Rotation, RotationStatus, requested, Payload, RotationDb,
  RotationCounters,
}
use twilight_core_explorer.KeyRotation.Events.{
  Extracted, extracted, refused, extract_rotation_event_payload, event_matches_message,
  parse_slot_id, read_message_slot_id, read_message_operator, read_event_attr,
}
use twilight_core_explorer.KeyRotation.Rows.{
  by_applied, by_cancelled, find_by_event, upsert_requested_rotation,
  upsert_immediate_applied_rotation, mark_rotation_applied, create_applied_rotation,
  mark_rotation_cancelled, create_cancelled_rotation,
}
use twilight_core_explorer.KeyRotation.Slots.{update_projection_consensus_address}
use twilight_core_explorer.KeyRotation.Failures.{create_rotation_failure}

abbrev pub RotationState : Type 0
RotationState = RotationCounters × RotationDb

abbrev pub rotation_written : RotationCounters → RotationCounters
rotation_written c = record c { rotations_written = c.rotations_written + 1 }

abbrev pub failure_created : RotationCounters → RotationCounters
failure_created c = record c { failures_created = c.failures_created + 1 }

-- a failure, which is counted
abbrev pub rotation_fails :
    Option MessageSource → Option EventSource → FailureKind → RotationState → RotationState
rotation_fails message event kind (c, db) =
    (failure_created c, create_rotation_failure message event kind db)

abbrev pub write_rotation : (RotationDb → RotationDb) → RotationState → RotationState
write_rotation act (c, db) = (rotation_written c, act db)

-- What the messages carry along: the ids of the events that were used.
pub record Used : Type 0 where
  pub requested_ids : List ℕ
  pub rotated_ids : List ℕ

abbrev pub is_used : List ℕ → EventSource → Bool
is_used ids event = any (λ i. i == event.id) ids

abbrev pub on_requested :
    MessageSource → EventSource → Extracted → Used × RotationState → Used × RotationState
on_requested message event (refused kind) (used, s) =
    (used, rotation_fails (some message) (some event) kind s)
on_requested message event (extracted payload) (used, s) = (
  record used { requested_ids = event.id ∷ used.requested_ids },
  write_rotation
      (upsert_requested_rotation (some message) event payload (read_message_operator message)) s,
)

abbrev pub on_rotated :
    MessageSource → EventSource → Extracted → Used × RotationState → Used × RotationState
on_rotated message event (refused kind) (used, s) =
    (used, rotation_fails (some message) (some event) kind s)
on_rotated message event (extracted payload) (used, s) = (
  record used { rotated_ids = event.id ∷ used.rotated_ids },
  write_rotation
      (upsert_immediate_applied_rotation message event payload (read_message_operator message)) s,
)

-- the rotated events that match, once no requested event does
abbrev pub match_rotated :
    MessageSource → ℤ → List EventSource → Used × RotationState → Used × RotationState
match_rotated message slot [] (used, s) = (used, rotation_fails (some message) none missing_event s)
match_rotated message slot (event ∷ []) u =
    on_rotated message event (extract_rotation_event_payload event slot) u
match_rotated message slot (event ∷ other ∷ rest) (used, s) =
    (used, rotation_fails (some message) (some event) ambiguous_event s)

abbrev pub match_requested :
    MessageSource
    → ℤ
    → (requests rotated : List EventSource) → Used × RotationState
    → Used × RotationState
match_requested message slot [] rotated u = match_rotated message slot rotated u
match_requested message slot (event ∷ []) rotated u =
    on_requested message event (extract_rotation_event_payload event slot) u
match_requested message slot (event ∷ other ∷ rest) rotated (used, s) =
    (used, rotation_fails (some message) (some event) ambiguous_event s)

abbrev pub candidates : MessageSource → ℤ → List ℕ → List EventSource → List EventSource
candidates message slot ids =
    keep_if (λ e. not (is_used ids e) && event_matches_message e message slot)

abbrev pub message_on_slot :
    (requests rotated : List EventSource)
    → MessageSource
    → Option ℤ
    → Used × RotationState
    → Used × RotationState
message_on_slot requests rotated message none (used, s) =
    (used, rotation_fails (some message) none invalid_slot_id s)
message_on_slot requests rotated message (some slot) (used, s) =
    match_requested message slot (candidates message slot used.requested_ids requests)
      (candidates message slot used.rotated_ids rotated) (used, s)

-- `projectRotationMessage`
unfoldable pub project_rotation_message :
    (requests rotated : List EventSource)
    → MessageSource
    → Used × RotationState
    → Used × RotationState
unfolding parse_slot_id read_message_slot_id read_message_operator event_matches_message
    extract_rotation_event_payload upsert_requested_rotation upsert_immediate_applied_rotation
    create_rotation_failure
project_rotation_message requests rotated message u =
    message_on_slot requests rotated message (parse_slot_id (read_message_slot_id message)) u

-- the way to an event's slot and payload that the three kinds of events share
abbrev pub with_extracted :
    EventSource
    → (Payload → RotationState → RotationState)
    → Extracted
    → RotationState
    → RotationState
with_extracted event act (refused kind) s = rotation_fails none (some event) kind s
with_extracted event act (extracted payload) s = act payload s

abbrev pub with_payload :
    EventSource
    → (Payload → RotationState → RotationState)
    → Option ℤ
    → RotationState
    → RotationState
with_payload event act none s = rotation_fails none (some event) invalid_slot_id s
with_payload event act (some slot) s =
    with_extracted event act (extract_rotation_event_payload event slot) s

abbrev pub event_slot : EventSource → Option ℤ
event_slot event = parse_slot_id (read_event_attr event "slot_id")

abbrev pub orphan : EventSource → Payload → RotationState → RotationState
orphan event payload s =
    rotation_fails none (some event) missing_message
      (write_rotation (upsert_requested_rotation none event payload payload.operator_address) s)

-- `projectOrphanRequestedEvent`
unfoldable pub project_orphan_requested_event : EventSource → RotationState → RotationState
unfolding parse_slot_id read_event_attr extract_rotation_event_payload upsert_requested_rotation
    create_rotation_failure
project_orphan_requested_event event s = with_payload event (orphan event) (event_slot event) s

abbrev pub is_requested : RotationStatus → Bool
is_requested requested = true
is_requested _ = false

abbrev pub eq_address : Option Text → Option Text → Bool
eq_address none none = true
eq_address (some a) (some b) = eq_text a b
eq_address _ _ = false

abbrev pub effective_is : Option ℤ → Option ℤ → Bool
effective_is none actual = true
effective_is (some a) none = false
effective_is (some a) (some b) = eq_int b a

-- the `findMany` of the requested rotations that an event settles
abbrev pub settles : Payload → Rotation → Bool
settles payload r =
    eq_int r.slot_id payload.slot_id
    && is_requested r.status
    && eq_address r.new_consensus_address payload.new_consensus_address
    && effective_is payload.effective_height r.effective_height

abbrev pub apply_to : EventSource → Payload → ℕ → RotationState → RotationState
apply_to event payload id = write_rotation (λ db.
    update_projection_consensus_address event payload none none
      (mark_rotation_applied id event payload db))

abbrev pub apply_new : EventSource → Payload → RotationState → RotationState
apply_new event payload s = rotation_fails none (some event) missing_request (
    write_rotation
      (λ db.
        update_projection_consensus_address event payload none none
          (create_applied_rotation event payload db))
      s)

abbrev pub apply_match : EventSource → Payload → List Rotation → RotationState → RotationState
apply_match event payload [] s = apply_new event payload s
apply_match event payload (r ∷ []) s = apply_to event payload r.id s
apply_match event payload (r ∷ other ∷ rest) s =
    rotation_fails none (some event) rotation_correlation_failed s

abbrev pub apply_existing : EventSource → Payload → Option Rotation → RotationState → RotationState
apply_existing event payload (some r) s = apply_to event payload r.id s
apply_existing event payload none (c, db) =
    apply_match event payload (keep_if (settles payload) db.rotations) (c, db)

abbrev pub apply_event : EventSource → Payload → RotationState → RotationState
apply_event event payload (c, db) =
    apply_existing event payload (find_by_event by_applied event.id db.rotations) (c, db)

-- `projectAppliedEvent`
unfoldable pub project_applied_event : EventSource → RotationState → RotationState
unfolding parse_slot_id read_event_attr extract_rotation_event_payload find_by_event
    mark_rotation_applied create_applied_rotation update_projection_consensus_address
    create_rotation_failure
project_applied_event event s = with_payload event (apply_event event) (event_slot event) s

abbrev pub cancel_at : EventSource → Payload → ℕ → RotationState → RotationState
cancel_at event payload id = write_rotation (mark_rotation_cancelled id event payload)

abbrev pub cancel_match : EventSource → Payload → List Rotation → RotationState → RotationState
cancel_match event payload [] s =
    rotation_fails none (some event) missing_request
      (write_rotation (create_cancelled_rotation event payload) s)
cancel_match event payload (r ∷ []) s = cancel_at event payload r.id s
cancel_match event payload (r ∷ other ∷ rest) s =
    rotation_fails none (some event) rotation_correlation_failed s

abbrev pub cancel_existing : EventSource → Payload → Option Rotation → RotationState → RotationState
cancel_existing event payload (some r) s = cancel_at event payload r.id s
cancel_existing event payload none (c, db) =
    cancel_match event payload (keep_if (settles payload) db.rotations) (c, db)

abbrev pub cancel_event : EventSource → Payload → RotationState → RotationState
cancel_event event payload (c, db) =
    cancel_existing event payload (find_by_event by_cancelled event.id db.rotations) (c, db)

-- `projectCancelledEvent`
unfoldable pub project_cancelled_event : EventSource → RotationState → RotationState
unfolding parse_slot_id read_event_attr extract_rotation_event_payload find_by_event
    mark_rotation_cancelled create_cancelled_rotation create_rotation_failure
project_cancelled_event event s = with_payload event (cancel_event event) (event_slot event) s
