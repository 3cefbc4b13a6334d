-- ===== src/KeyRotation.antt =====
-- apps/indexer/src/projections/coreslot-key-rotation.ts: the rotations of consensus keys, from the
-- messages and events of a height.
pub mod Types
pub mod Events
pub mod Columns
pub mod Slots
pub mod Failures
pub mod Rows
pub mod Projection
pub mod Height
pub mod Invariant
pub mod Failed
pub mod Recorded
