-- ===== src/Ingest/Height/Repeat.antt =====
-- `ingestHeight` run again on what it has fetched: the `upsert`s of ingest-height.ts do nothing new.
use twilight_core_explorer.Common.{
  or_else, ℕ, String, Bool, true, false, ◌≡◌, refl, Option, none, some, str_eq_iff, ==_iff, arith,
}
use twilight_core_explorer.Ingest.Store.{row_hash, HeightRows, Store, write_rows, find_block}
use twilight_core_explorer.Ingest.Store.Laws.{find_block-write_rows, Repeated, write_rows-Repeated}
use twilight_core_explorer.Ingest.Height.Laws.{stamp_height-find}
use twilight_core_explorer.Ingest.Height.{
  read, Faults, ingested, write, compare_hashes, hash_of, decide, counts, stamp_height,
  ingest_height,
}

-- every write of the database succeeds
abbrev pub no_faults : Faults
no_faults = record { in_transaction = none; in_halt_mismatch = none; in_halt_error = none }

-- a hash that was written from the same reading is not contradicted by it
pub same_hash : (o p : Option String) → compare_hashes (or_else o p) o ≡ write
same_hash none none = refl
same_hash none (some y) = refl
same_hash (some x) p = ground (arith, str_eq_iff x x)

stored_self :
    (skip : Bool) (height : ℕ) (latest : Option ℕ) (rows : HeightRows) (s : Store)
    → hash_of (
        find_block height
          (stamp_height skip height rows.block_hash latest (write_rows height rows s)))
      ≡ row_hash rows
stored_self skip height latest rows s =
    rw
      (
        stamp_height-find height skip height rows.block_hash latest (write_rows height rows s),
        find_block-write_rows height height rows s,
        (==_iff height height).1 refl,
      )
      refl

decide_again :
    (skip : Bool) (height : ℕ) (latest : Option ℕ) (rows : HeightRows) (s : Store)
    → decide height rows
        (stamp_height skip height rows.block_hash latest (write_rows height rows s))
      ≡ write
unfolding decide
decide_again skip height latest rows s =
    rw (stored_self skip height latest rows s) (same_hash rows.block_hash rows.raw_hash)

runs :
    (skip : Bool) (height : ℕ) (latest : Option ℕ) (rows : HeightRows) (s : Store)
    → decide height rows s ≡ write
    → ingest_height skip height latest (read rows) no_faults s ≡ (
      ingested (counts height rows),
      stamp_height skip height rows.block_hash latest (write_rows height rows s),
    )
unfolding ingest_height
runs skip height latest rows s e = rw e refl

stamped-Repeated :
    (skip : Bool) (height : ℕ) (latest : Option ℕ) (rows : HeightRows) (s : Store)
    → let t = stamp_height skip height rows.block_hash latest (write_rows height rows s) in
      Repeated rows t (stamp_height skip height rows.block_hash latest (write_rows height rows t))
unfolding write_rows find_block
stamped-Repeated true height latest rows s = write_rows-Repeated height rows s
stamped-Repeated false height latest rows s =
    let r = write_rows-Repeated height rows s in
    record {
      blocks = r.blocks;
      transactions = r.transactions;
      messages = r.messages;
      events = r.events;
      decode_failures = r.decode_failures;
    }

-- A height that was let through, run again with what was fetched, is let through again. The blocks,
-- transactions, messages and events that any key finds are those that it found, but the decode
-- failures are there once more.
pub ingest_height-Repeated :
    (skip : Bool) (height : ℕ) (latest : Option ℕ) (rows : HeightRows) (s : Store)
    → decide height rows s ≡ write
    → let t = (ingest_height skip height latest (read rows) no_faults s).1 in
      let again = ingest_height skip height latest (read rows) no_faults t in
      (again.0 ≡ ingested (counts height rows)) × Repeated rows t again.1
ingest_height-Repeated skip height latest rows s e =
    let t = stamp_height skip height rows.block_hash latest (write_rows height rows s) in
    rw
      (
        runs skip height latest rows s e,
        runs skip height latest rows t (decide_again skip height latest rows s),
      )
      (refl, stamped-Repeated skip height latest rows s)
