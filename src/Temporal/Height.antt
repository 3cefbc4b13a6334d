-- ===== src/Temporal/Height.antt =====
-- `projectCoreSlotTemporalMapHeight` and `projectCoreSlotTemporalMapRange` of coreslot-temporal-map.ts,
-- and the caps on a range's end. The upstream tables, which the projection only reads, are a record.
use twilight_core_explorer.Common.{
  ℕ, zero, suc, ◌+◌, ◌-◌, String, Bool, false, not, ◌&&◌, ◌||◌, Option, none, some, List, [], ◌∷◌,
  ltb, leb, ◌==◌, keep_if, str_eq, if◌then◌else◌,
}
use twilight_core_explorer.Projection.Cursor.{
  ProjectionCursor, read_projection_cursor_height, update_projection_cursor_success,
  halt_projection_cursor_error,
}
use twilight_core_explorer.Projection.Failure.{Failure, genesis_unavailable, delete_where}
use twilight_core_explorer.Temporal.Types.{
  LifecycleSource, RotationSource, Db, Counters, temporal_map_projection, create_failure,
}
use twilight_core_explorer.Temporal.Events.{State, project_lifecycle_event, project_rotation}
use twilight_core_explorer.Temporal.Genesis.{
  GenesisRead, Outcome, done, thrown, genesis_seed_failure_source_height,
  seed_core_slot_genesis_temporal_map,
}

pub record Upstream : Type 0 where
  pub lifecycle_events : List LifecycleSource
  pub rotations : List RotationSource

-- `sourceHeight = height`, not resolved, of this projection
abbrev pub is_stale_failure : ℕ → Failure → Bool
is_stale_failure height f =
    str_eq f.projection_name temporal_map_projection && f.source_height == height && not f.resolved

abbrev pub is_window_event : String → Bool
is_window_event type =
    str_eq type "coreslot_registered"
    || str_eq type "coreslot_activated"
    || str_eq type "coreslot_inactivated"
    || str_eq type "coreslot_suspended"
    || str_eq type "coreslot_removed"

abbrev at_height : ℕ → Option ℕ → Bool
at_height height none = false
at_height height (some h) = h == height

unfoldable pub insert_by_id {ℓ} : {A : Type ℓ} → (A → ℕ) → A → List A → List A
insert_by_id key a [] = a ∷ []
insert_by_id key a (b ∷ bs) = if leb (key a) (key b) then a ∷ b ∷ bs else b ∷ insert_by_id key a bs

unfoldable pub sort_by_id {ℓ} : {A : Type ℓ} → (A → ℕ) → List A → List A
unfolding insert_by_id
sort_by_id key [] = []
sort_by_id key (a ∷ rest) = insert_by_id key a (sort_by_id key rest)

unfoldable pub lifecycle_events_at : ℕ → Upstream → List LifecycleSource
unfolding sort_by_id
lifecycle_events_at height u =
    sort_by_id (λ e. e.id)
      (keep_if (λ e. e.height == height && is_window_event e.event_type) u.lifecycle_events)

unfoldable pub rotations_at : ℕ → Upstream → List RotationSource
unfolding sort_by_id
rotations_at height u =
    sort_by_id (λ r. r.id)
      (keep_if
        (λ r.
          at_height height r.requested_height
          || at_height height r.applied_height
          || at_height height r.cancelled_height)
        u.rotations)

unfoldable pub project_lifecycle_events : List LifecycleSource → State → State
unfolding project_lifecycle_event
project_lifecycle_events [] s = s
project_lifecycle_events (e ∷ es) s = project_lifecycle_events es (project_lifecycle_event e s)

unfoldable pub project_rotations : ℕ → List RotationSource → State → State
unfolding project_rotation
project_rotations height [] s = s
project_rotations height (r ∷ rs) s = project_rotations height rs (project_rotation height r s)

-- the state in which a height's transaction begins to project
abbrev pub begin_height : ℕ → Db → State
begin_height height db = (
  record { windows_written = 0; failures_created = 0 },
  record db { failures = delete_where (is_stale_failure height) db.failures },
)

-- the rows that one height writes
unfoldable pub project_rows : ℕ → Upstream → Db → State
unfolding lifecycle_events_at rotations_at project_lifecycle_events project_rotations
project_rows height u db =
    project_rotations height (rotations_at height u)
      (project_lifecycle_events (lifecycle_events_at height u) (begin_height height db))

abbrev pub commit_height : String → ℕ → State → Outcome Counters × Db
commit_height chain height (c, db) = (
  done c,
  record db {
    cursors = update_projection_cursor_success temporal_map_projection chain height db.cursors;
  },
)

-- `projectCoreSlotTemporalMapHeight`. `fault` is the error by which the database ended the
-- transaction, if it did: the transaction's writes are gone, and the cursor is halted.
unfoldable pub project_core_slot_temporal_map_height :
    String → ℕ → Upstream → (fault : Option String) → Db → Outcome Counters × Db
unfolding project_rows update_projection_cursor_success halt_projection_cursor_error
project_core_slot_temporal_map_height chain height u none db =
    commit_height chain height (project_rows height u db)
project_core_slot_temporal_map_height chain height u (some message) db = (
  thrown message,
  record db {
    cursors = halt_projection_cursor_error temporal_map_projection chain height message db.cursors;
  },
)

abbrev prepend : Counters → Outcome (List Counters) × Db → Outcome (List Counters) × Db
prepend c (done cs, db) = (done (c ∷ cs), db)
prepend c (thrown message, db) = (thrown message, db)

abbrev continue_range :
    Outcome Counters × Db → (Db → Outcome (List Counters) × Db) → Outcome (List Counters) × Db
continue_range (thrown message, db) rest = (thrown message, db)
continue_range (done c, db) rest = prepend c (rest db)

-- the loop over the heights: `count` heights from `height`, with a fault for each
unfoldable pub project_heights :
    String → Upstream → (ℕ → Option String) → (count height : ℕ) → Db → Outcome (List Counters) × Db
unfolding project_core_slot_temporal_map_height
project_heights chain u faults zero height db = (done [], db)
project_heights chain u faults (suc count) height db =
    continue_range (project_core_slot_temporal_map_height chain height u (faults height) db)
      (project_heights chain u faults count (height + 1))

-- `ProjectCoreSlotTemporalMapRangeArgs`: `genesis` is what the client gave, if there is a client.
pub record RangeArgs : Type 0 where
  pub chain_id : String
  pub start_height : ℕ
  pub end_height : ℕ
  pub genesis : Option GenesisRead
  pub seed_genesis : Bool

abbrev after_seed :
    Outcome Counters × Db → (Db → Outcome (List Counters) × Db) → Outcome (List Counters) × Db
after_seed (thrown message, db) rest = (thrown message, db)
after_seed (done c, db) rest = rest db

abbrev record_missing_client : String → Db → Db
record_missing_client chain db =
    let failed =
      create_failure genesis_seed_failure_source_height none none genesis_unavailable db in
    record failed {
      cursors =
          halt_projection_cursor_error temporal_map_projection chain 1
            "ChainClient.getGenesis is required when rebuilding the temporal map genesis baseline."
            failed.cursors;
    }

-- `seed_fault` and `faults` are the errors by which the database ended the transactions.
abbrev seed_range :
    RangeArgs
    → Option GenesisRead
    → Option String
    → (Db → Outcome (List Counters) × Db)
    → Db
    → Outcome (List Counters) × Db
seed_range args none seed_fault rest db = (
  thrown "ChainClient.getGenesis is required for CoreSlot temporal genesis seed",
  record_missing_client args.chain_id db,
)
seed_range args (some genesis) seed_fault rest db =
    after_seed (seed_core_slot_genesis_temporal_map args.chain_id genesis seed_fault db) rest

-- `projectCoreSlotTemporalMapRange`
unfoldable pub project_core_slot_temporal_map_range :
    RangeArgs
    → Upstream
    → (seed_fault : Option String) → (faults : ℕ → Option String) → Db
    → Outcome (List Counters) × Db
unfolding project_heights seed_core_slot_genesis_temporal_map halt_projection_cursor_error
    create_failure
project_core_slot_temporal_map_range args u seed_fault faults db =
    let loop =
      project_heights args.chain_id u faults (args.end_height + 1 - args.start_height)
        args.start_height in
    if args.seed_genesis || leb args.start_height 1
    then seed_range args args.genesis seed_fault loop db
    else loop db

-- `minUpstreamCursorHeight`, over the two upstream projections
unfoldable pub min_upstream_cursor_height : List ProjectionCursor → String → ℕ
unfolding read_projection_cursor_height
min_upstream_cursor_height cursors chain =
    let lifecycle = read_projection_cursor_height cursors "coreslot_lifecycle_v1" chain in
    let rotation = read_projection_cursor_height cursors "coreslot_key_rotation_v1" chain in
    if ltb rotation lifecycle then rotation else lifecycle

pub record CappedEnd : Type 0 where
  pub end_height : ℕ
  pub temporal_map_cursor : ℕ

-- `capEndHeightAtTemporalMapCursor`
unfoldable pub cap_end_height_at_temporal_map_cursor :
    List ProjectionCursor → String → ℕ → CappedEnd
unfolding read_projection_cursor_height
cap_end_height_at_temporal_map_cursor cursors chain requested =
    let cursor = read_projection_cursor_height cursors temporal_map_projection chain in
    record {
      end_height = if ltb requested cursor then requested else cursor;
      temporal_map_cursor = cursor;
    }
