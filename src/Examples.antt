-- ===== src/Examples.antt =====
-- Tests of the models on small inputs, and an instance of each theorem that has hypotheses.
pub mod Temporal
pub mod Draw
mod Verified
mod Rules
mod Window
mod Cursors
mod Windows
mod Ingest
mod Rotations
mod Events
mod Accounts
