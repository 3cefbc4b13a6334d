-- ===== src/Temporal.antt =====
-- apps/indexer/src/projections/coreslot-temporal-map.ts: the CoreSlot consensus windows.
pub mod Types
pub mod Table
pub mod Window
pub mod Events
pub mod Genesis
pub mod Height
pub mod Lists
pub mod Invariant
pub mod Lookup
pub mod History
