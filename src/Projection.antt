-- ===== src/Projection.antt =====
-- What every projection writes beside its rows: a cursor per projection and chain, and failure rows
-- (apps/indexer/src/projections/cursor.ts and types.ts). The text of an error is not modelled.
pub mod Cursor
pub mod Failure
