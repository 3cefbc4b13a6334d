-- ===== src/KeyRotation/Height.antt =====
-- `projectCoreSlotKeyRotationHeight` and `projectCoreSlotKeyRotationRange` of coreslot-key-rotation.ts.
-- The events stand in the order of their ids, and the messages in the order of their transactions
-- and indices, as the queries return them.
use twilight_core_explorer.Common.{
  ℕ, zero, suc, ◌+◌, String, Bool, not, ◌&&◌, ◌||◌, Option, none, some, List, [], ◌∷◌, map, keep_if,
  any, ◌==◌, str_eq, if◌then◌else◌,
}
use twilight_core_explorer.Projection.Cursor.{
  update_projection_cursor_success, halt_projection_cursor_error,
}
use twilight_core_explorer.Projection.Failure.{Failure, delete_where, eq_opt_nat, eq_opt_str}
use twilight_core_explorer.Temporal.Genesis.{Outcome, done, thrown}
use twilight_core_explorer.KeyRotation.Types.{
  MessageSource, EventSource, Chain, RotationDb, RotationCounters,
}
use twilight_core_explorer.KeyRotation.Events.{is_failed_tx_bound}
use twilight_core_explorer.KeyRotation.Failures.{rotation_projection}
use twilight_core_explorer.KeyRotation.Projection.{
  RotationState, Used, is_used, project_rotation_message, project_orphan_requested_event,
  project_applied_event, project_cancelled_event,
}

abbrev pub is_stale_rotation_failure : ℕ → Failure → Bool
is_stale_rotation_failure height f =
    str_eq f.projection_name rotation_projection && f.source_height == height && not f.resolved

-- the hashes of the transactions of the height that did not fail
unfoldable pub successful_tx_hashes : ℕ → Chain → List String
successful_tx_hashes height chain =
    map (λ t. t.hash)
      (keep_if
        (λ t. t.height == height && (str_eq t.status "success" || eq_opt_nat t.code (some 0)))
        chain.transactions)

abbrev pub events_at : ℕ → (String → Bool) → Chain → List EventSource
events_at height of_type chain =
    keep_if (λ e. e.height == height && of_type e.event_type) chain.events

abbrev pub is_requested_type : String → Bool
is_requested_type type = str_eq type "coreslot_key_rotation_requested"

abbrev pub is_rotated_type : String → Bool
is_rotated_type type = str_eq type "coreslot_key_rotated"

-- `isRotationCancelEventType`: both spellings
abbrev pub is_rotation_cancel_event_type : String → Bool
is_rotation_cancel_event_type type =
    str_eq type "coreslot_rotation_canceled" || str_eq type "coreslot_rotation_cancelled"

unfoldable pub rotation_messages : ℕ → List String → Chain → List MessageSource
rotation_messages height successful chain =
    keep_if
      (λ m.
        m.height == height
        && any (λ h. str_eq h m.tx_hash) successful
        && eq_opt_str m.module_name (some "coreslot")
        && str_eq m.type_url "/twilight.coreslot.v1.MsgRotateConsensusKey")
      chain.messages

-- 1. the messages
unfoldable pub project_messages :
    (requests rotated : List EventSource)
    → List MessageSource
    → Used × RotationState
    → Used × RotationState
unfolding project_rotation_message
project_messages requests rotated [] u = u
project_messages requests rotated (m ∷ ms) u =
    project_messages requests rotated ms (project_rotation_message requests rotated m u)

-- 2. to 4. a loop over events, some of which are passed over
unfoldable pub project_events :
    (EventSource → RotationState → RotationState)
    → (EventSource → Bool)
    → List EventSource
    → RotationState
    → RotationState
project_events project passed_over [] s = s
project_events project passed_over (e ∷ es) s =
    project_events project passed_over es (if passed_over e then s else project e s)

abbrev pub is_failed : List String → EventSource → Bool
is_failed successful e = is_failed_tx_bound successful e.tx_hash

-- the loops over the events, after the messages
abbrev pub project_all_events :
    (successful : List String)
    → (requests rotated cancels : List EventSource) → Used × RotationState
    → RotationState
project_all_events successful requests rotated cancels (used, s) =
    project_events project_cancelled_event (is_failed successful) cancels (
      project_events project_applied_event
        (λ e. is_used used.rotated_ids e || is_failed successful e) rotated
        (project_events project_orphan_requested_event
          (λ e. is_used used.requested_ids e || is_failed successful e) requests s))

abbrev pub begin_rotations : ℕ → RotationDb → RotationState
begin_rotations height db = (
  record { rotations_written = 0; failures_created = 0 },
  record db { failures = delete_where (is_stale_rotation_failure height) db.failures },
)

abbrev pub no_events : Used
no_events = record { requested_ids = []; rotated_ids = [] }

-- the rows that a height writes
unfoldable pub project_rotation_rows : ℕ → Chain → RotationDb → RotationState
unfolding successful_tx_hashes rotation_messages project_messages project_events
    project_orphan_requested_event project_applied_event project_cancelled_event
project_rotation_rows height chain db =
    let successful = successful_tx_hashes height chain in
    let requests = events_at height is_requested_type chain in
    let rotated = events_at height is_rotated_type chain in
    let cancels = events_at height is_rotation_cancel_event_type chain in
    project_all_events successful requests rotated cancels (
      project_messages requests rotated (rotation_messages height successful chain)
        (no_events, begin_rotations height db))

abbrev pub commit_rotations : String → ℕ → RotationState → Outcome RotationCounters × RotationDb
commit_rotations chain_id height (c, db) = (
  done c,
  record db {
    cursors = update_projection_cursor_success rotation_projection chain_id height db.cursors;
  },
)

-- `projectCoreSlotKeyRotationHeight`. `fault` is the error by which the database ended the transaction,
-- if it did: the transaction's writes are gone, and the cursor is halted.
unfoldable pub project_core_slot_key_rotation_height :
    String
    → ℕ
    → Chain
    → (fault : Option String) → RotationDb
    → Outcome RotationCounters × RotationDb
unfolding project_rotation_rows update_projection_cursor_success halt_projection_cursor_error
project_core_slot_key_rotation_height chain_id height chain none db =
    commit_rotations chain_id height (project_rotation_rows height chain db)
project_core_slot_key_rotation_height chain_id height chain (some message) db = (
  thrown message,
  record db {
    cursors = halt_projection_cursor_error rotation_projection chain_id height message db.cursors;
  },
)

abbrev pub prepend_counters :
    RotationCounters
    → Outcome (List RotationCounters) × RotationDb
    → Outcome (List RotationCounters) × RotationDb
prepend_counters c (done cs, db) = (done (c ∷ cs), db)
prepend_counters c (thrown message, db) = (thrown message, db)

abbrev pub continue_rotations :
    Outcome RotationCounters × RotationDb
    → (RotationDb → Outcome (List RotationCounters) × RotationDb)
    → Outcome (List RotationCounters) × RotationDb
continue_rotations (thrown message, db) rest = (thrown message, db)
continue_rotations (done c, db) rest = prepend_counters c (rest db)

-- `projectCoreSlotKeyRotationRange`: `count` heights from `height`, with a fault for each
unfoldable pub project_core_slot_key_rotation_range :
    String
    → Chain
    → (ℕ → Option String)
    → (count height : ℕ) → RotationDb
    → Outcome (List RotationCounters) × RotationDb
unfolding project_core_slot_key_rotation_height
project_core_slot_key_rotation_range chain_id chain faults zero height db = (done [], db)
project_core_slot_key_rotation_range chain_id chain faults (suc count) height db =
    continue_rotations
      (project_core_slot_key_rotation_height chain_id height chain (faults height) db)
      (project_core_slot_key_rotation_range chain_id chain faults count (height + 1))
