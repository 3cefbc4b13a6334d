-- ===== src/Ingest/Cursor.antt =====
-- apps/indexer/src/cursor.ts: the row of the indexer's cursor table that belongs to the chain. Every
-- call names the chain, which is the table's key, so the rows of other chains are never touched.
use twilight_core_explorer.Common.{ℕ, ◌-◌, String, Option, none, some, ltb, if◌then◌else◌}

-- `CURSOR_STATUS`
pub data IndexerStatus : Type 0 where
  idle running halted_hash_mismatch halted_error : IndexerStatus

pub record IndexerCursor : Type 0 where
  pub last_indexed_height : ℕ
  pub last_indexed_hash : Option String
  pub latest_chain_height : Option ℕ
  pub status : IndexerStatus
  pub error : Option String

-- `upsert` by the chain id
abbrev upsert_row :
    IndexerCursor → (IndexerCursor → IndexerCursor) → Option IndexerCursor → Option IndexerCursor
upsert_row create update none = some create
upsert_row create update (some c) = some (update c)

-- `getOrCreateCursor`
unfoldable pub get_or_create_cursor : Option IndexerCursor → Option IndexerCursor
get_or_create_cursor =
    upsert_row
      (record {
        last_indexed_height = 0;
        last_indexed_hash = none;
        latest_chain_height = none;
        status = idle;
        error = none;
      })
      (λ c. c)

-- `updateCursorSuccess`; the created and the updated row have the same columns
unfoldable pub update_cursor_success :
    ℕ → Option String → Option ℕ → Option IndexerCursor → Option IndexerCursor
update_cursor_success height hash latest =
    let row : IndexerCursor = record {
      last_indexed_height = height;
      last_indexed_hash = hash;
      latest_chain_height = latest;
      status = idle;
      error = none;
    } in
    upsert_row row (λ c. row)

-- `previousHeight`
abbrev pub previous_indexed_height : ℕ → ℕ
previous_indexed_height height = if ltb 0 height then height - 1 else 0

-- `haltCursorHashMismatch` and `haltCursorError`, which differ in the status: an existing row keeps its
-- height, a missing one is created below the height that failed.
abbrev halt_with : IndexerStatus → ℕ → String → Option IndexerCursor → Option IndexerCursor
halt_with status height message =
    upsert_row
      (record {
        last_indexed_height = previous_indexed_height height;
        last_indexed_hash = none;
        latest_chain_height = none;
        status = status;
        error = some message;
      })
      (λ c. record c { status = status; error = some message })

unfoldable pub halt_cursor_hash_mismatch : ℕ → String → Option IndexerCursor → Option IndexerCursor
halt_cursor_hash_mismatch = halt_with halted_hash_mismatch

unfoldable pub halt_cursor_error : ℕ → String → Option IndexerCursor → Option IndexerCursor
halt_cursor_error = halt_with halted_error
