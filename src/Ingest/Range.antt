-- ===== src/Ingest/Range.antt =====
-- `ingestRange` of ingest-range.ts: workers that share the range's variables, one step of one worker at
-- a time. A step is what runs between two awaits, or one effect on the database.
pub mod Advance
pub mod Worker
pub mod System
pub mod Invariant
pub mod Safety
pub mod Termination
pub mod Completion
