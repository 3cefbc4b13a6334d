-- ===== src/Ingest.antt =====
-- apps/indexer/src: the ingestion of blocks (ingest-height.ts, ingest-range.ts, cursor.ts).
pub mod Cursor
pub mod Store
pub mod Height
pub mod Range
pub mod Events
pub mod Accounts
