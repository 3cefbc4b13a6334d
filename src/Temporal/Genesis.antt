-- ===== src/Temporal/Genesis.antt =====
-- The genesis seed of coreslot-temporal-map.ts. What the chain client answered and what
-- `extractGenesisSlots` reads from it enter as values.
use twilight_core_explorer.Common.{
  ℕ, String, Bool, true, false, not, ◌&&◌, Option, none, some, List, [], ◌∷◌, ◌==◌, any, str_eq,
}
use twilight_core_explorer.Text.{
  Text, OptionalNormalized, absent, present, malformed, normalize_optional_consensus_address,
}
use twilight_core_explorer.Projection.Cursor.{
  update_projection_cursor_success, halt_projection_cursor_error,
}
use twilight_core_explorer.Projection.Failure.{
  Failure, FailureKind, genesis_unavailable, genesis_coreslot_malformed, invalid_consensus_address,
  temporal_window_conflict, eq_kind, delete_where,
}
use twilight_core_explorer.Temporal.Types.{
  Db, Counters, OpenWindowInput, genesis, temporal_map_projection, create_failure,
}
use twilight_core_explorer.Temporal.Window.{open_active_window}
use twilight_core_explorer.Temporal.Events.{State, count_failure, count_opened}

-- `GENESIS_SEED_FAILURE_SOURCE_HEIGHT`
abbrev pub genesis_seed_failure_source_height : ℕ
genesis_seed_failure_source_height = 0

-- `GENESIS_SEED_FAILURE_KINDS`
abbrev pub genesis_seed_failure_kinds : List FailureKind
genesis_seed_failure_kinds =
    genesis_unavailable ∷ genesis_coreslot_malformed ∷ invalid_consensus_address
    ∷ temporal_window_conflict ∷ []

-- `GenesisSlotSource`; `active` is `isActiveGenesisSlot(raw)`
pub record GenesisSlotSource : Type 0 where
  pub slot_id : Option ℕ
  pub operator_address : Option Text
  pub consensus_address : Option Text
  pub consensus_power : Option ℕ
  pub active : Bool

abbrev pub genesis_failure : FailureKind → State → State
genesis_failure kind (c, db) =
    (count_failure c, create_failure genesis_seed_failure_source_height none none kind db)

abbrev pub genesis_input : GenesisSlotSource → ℕ → Text → OpenWindowInput
genesis_input slot id address = record {
  slot_id = id;
  operator_address = slot.operator_address;
  consensus_address = address;
  consensus_power = slot.consensus_power;
  validator_update_height = none;
  effective_from_height = 1;
  opened_by_kind = genesis;
  opened_by_event_id = none;
  opened_by_rotation_id = none;
  opened_by_lifecycle_id = none;
  source_height = genesis_seed_failure_source_height;
}

abbrev pub seed_address : GenesisSlotSource → ℕ → OptionalNormalized → State → State
seed_address slot id malformed s = genesis_failure invalid_consensus_address s
seed_address slot id absent s = genesis_failure invalid_consensus_address s
seed_address slot id (present address) (c, db) =
    count_opened c (open_active_window (genesis_input slot id address) db)

abbrev pub seed_active : GenesisSlotSource → Option ℕ → State → State
seed_active slot none s = genesis_failure genesis_coreslot_malformed s
seed_active slot (some id) s =
    seed_address slot id (normalize_optional_consensus_address slot.consensus_address) s

-- `seedGenesisSlot`
unfoldable pub seed_genesis_slot : GenesisSlotSource → State → State
seed_genesis_slot slot s = elim slot.active [ true ↦ seed_active slot slot.slot_id s | false ↦ s ]

unfoldable pub seed_genesis_slots : List GenesisSlotSource → State → State
unfolding seed_genesis_slot
seed_genesis_slots [] s = s
seed_genesis_slots (slot ∷ slots) s = seed_genesis_slots slots (seed_genesis_slot slot s)

-- the rows that a seed clears before it runs
abbrev pub is_genesis_failure : Failure → Bool
is_genesis_failure f =
    str_eq f.projection_name temporal_map_projection
    && f.source_height == genesis_seed_failure_source_height
    && any (eq_kind f.failure_kind) genesis_seed_failure_kinds
    && not f.resolved

-- What `getGenesis` and `extractGenesisSlots` gave; each error carries its message.
pub data GenesisRead : Type 0 where
  unavailable : String → GenesisRead
  malformed_genesis : String → GenesisRead
  slots : List GenesisSlotSource → GenesisRead

pub data Outcome {ℓ} (A : Type ℓ) : Type ℓ where
  done : A → Outcome A
  thrown : String → Outcome A

abbrev cleared : Db → Db
cleared db = record db { failures = delete_where is_genesis_failure db.failures }

abbrev no_counts : Counters
no_counts = record { windows_written = 0; failures_created = 0 }

-- `recordGenesisUnavailable` and `recordGenesisMalformed`
abbrev record_genesis : FailureKind → String → String → Db → Db
record_genesis kind chain message db =
    let failed = create_failure genesis_seed_failure_source_height none none kind db in
    record failed {
      cursors = halt_projection_cursor_error temporal_map_projection chain 1 message failed.cursors;
    }

abbrev committed : String → State → Outcome Counters × Db
committed chain (c, db) = (
  done c,
  record db {
    cursors = update_projection_cursor_success temporal_map_projection chain 1 db.cursors;
  },
)

-- `seedCoreSlotGenesisTemporalMap`. `fault` is the error by which the database ended the
-- transaction, if it did: the transaction's writes are gone, and the cursor is halted.
unfoldable pub seed_core_slot_genesis_temporal_map :
    String → GenesisRead → (fault : Option String) → Db → Outcome Counters × Db
unfolding seed_genesis_slots create_failure update_projection_cursor_success
    halt_projection_cursor_error
seed_core_slot_genesis_temporal_map chain (unavailable message) fault db =
    (thrown message, record_genesis genesis_unavailable chain message db)
seed_core_slot_genesis_temporal_map chain (malformed_genesis message) fault db =
    (thrown message, record_genesis genesis_coreslot_malformed chain message db)
seed_core_slot_genesis_temporal_map chain (slots list) none db =
    committed chain (seed_genesis_slots list (no_counts, cleared db))
seed_core_slot_genesis_temporal_map chain (slots list) (some message) db = (
  thrown message,
  record db {
    cursors = halt_projection_cursor_error temporal_map_projection chain 1 message db.cursors;
  },
)
