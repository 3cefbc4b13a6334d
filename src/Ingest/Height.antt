-- ===== src/Ingest/Height.antt =====
-- `ingestHeight` of ingest-height.ts. The reads of the node and of the stored block, and the mapping of
-- what was read, come as `Read`; the faults of the database's writes come as `Faults`.
pub mod Laws
pub mod Repeat
use twilight_core_explorer.Common.{
  ℕ, String, Bool, true, false, not, ◌&&◌, Option, none, some, length, str_eq, if◌then◌else◌,
}
use twilight_core_explorer.Ingest.Cursor.{
  halt_cursor_error, halt_cursor_hash_mismatch, update_cursor_success,
}
use twilight_core_explorer.Ingest.Store.{BlockRow, HeightRows, Store, write_rows, find_block}

-- The four reads, done together: their rows, or the first error among them.
pub data Read : Type 0 where
  read : HeightRows → Read
  read_failed : (message : String) → Read

-- The database client's faults: each write fails with an error, or succeeds.
pub record Faults : Type 0 where
  pub in_transaction : Option String
  pub in_halt_mismatch : Option String
  pub in_halt_error : Option String

-- `IngestHeightResult`
pub record IngestHeightResult : Type 0 where
  pub height : ℕ
  pub block_hash : Option String
  pub tx_count : ℕ
  pub event_count : ℕ
  pub message_count : ℕ

pub data Ingested : Type 0 where
  ingested : IngestHeightResult → Ingested
  hash_mismatch : (height : ℕ) (stored fetched : String) → Ingested
  failed : (message : String) → Ingested

-- What `ingestHeight` has decided before it writes.
pub data Decision : Type 0 where
  write : Decision
  halt_mismatch : (stored fetched : String) → Decision

abbrev pub hash_of : Option BlockRow → Option String
hash_of none = none
hash_of (some b) = b.hash

-- `existing && fetched && existing !== fetched`; an empty text counts as none
abbrev pub compare_hashes : Option String → Option String → Decision
compare_hashes (some stored) (some fetched) =
    if not (str_eq stored "") && not (str_eq fetched "") && not (str_eq stored fetched)
    then halt_mismatch stored fetched
    else write
compare_hashes _ _ = write

unfoldable pub decide : ℕ → HeightRows → Store → Decision
unfolding find_block
decide height rows s = compare_hashes (hash_of (find_block height s)) rows.block_hash

abbrev pub counts : ℕ → HeightRows → IngestHeightResult
counts height rows = record {
  height = height;
  block_hash = rows.block_hash;
  tx_count = length rows.transactions;
  event_count = length rows.events;
  message_count = length rows.messages;
}

unfoldable pub halt_mismatch_at : ℕ → String → Store → Store
unfolding halt_cursor_hash_mismatch
halt_mismatch_at height message s = record s {
  cursor = halt_cursor_hash_mismatch height message s.cursor;
}

unfoldable pub halt_at : ℕ → String → Store → Store
unfolding halt_cursor_error
halt_at height message s = record s { cursor = halt_cursor_error height message s.cursor }

-- the text that the halted cursor carries
abbrev pub mismatch_message : String
mismatch_message = "Hash mismatch"

-- the cursor's write in the transaction, unless the range owns the watermark
abbrev pub stamp_height : Bool → ℕ → Option String → Option ℕ → Store → Store
stamp_height true height hash latest s = s
stamp_height false height hash latest s = record s {
  cursor = update_cursor_success height hash latest s.cursor;
}

-- `haltCursorError` before the error is thrown; a fault of its own is thrown instead
abbrev pub fail_with : ℕ → String → Option String → Store → Ingested × Store
fail_with height message none s = (failed message, halt_at height message s)
fail_with height message (some fault) s = (failed fault, s)

-- `haltCursorHashMismatch` before the mismatch is thrown; a fault of its own is an error like others
abbrev pub mismatch_with :
    ℕ → (stored fetched : String) → Option String → Faults → Store → Ingested × Store
mismatch_with height stored fetched none faults s =
    (hash_mismatch height stored fetched, halt_mismatch_at height mismatch_message s)
mismatch_with height stored fetched (some fault) faults s =
    fail_with height fault faults.in_halt_error s

abbrev pub write_or_halt :
    Bool → ℕ → Option ℕ → HeightRows → Faults → Decision → Option String → Store → Ingested × Store
write_or_halt skip height latest rows faults (halt_mismatch stored fetched) fault s =
    mismatch_with height stored fetched faults.in_halt_mismatch faults s
write_or_halt skip height latest rows faults write (some message) s =
    fail_with height message faults.in_halt_error s
write_or_halt skip height latest rows faults write none s = (
  ingested (counts height rows),
  stamp_height skip height rows.block_hash latest (write_rows height rows s),
)

-- `ingestHeight`
unfoldable pub ingest_height : Bool → ℕ → Option ℕ → Read → Faults → Store → Ingested × Store
unfolding decide write_rows update_cursor_success halt_at halt_mismatch_at
ingest_height skip height latest (read_failed message) faults s =
    fail_with height message faults.in_halt_error s
ingest_height skip height latest (read rows) faults s =
    write_or_halt skip height latest rows faults (decide height rows s) faults.in_transaction s
