-- ===== src/Draw.antt =====
-- apps/api/src/lib/draw-verify.ts: the independent re-derivation of a published draw.
pub mod Bytes
pub mod Params
pub mod Candidates
pub mod Beacon
pub mod Hashes
pub mod Winners
pub mod Memo
pub mod Verify
