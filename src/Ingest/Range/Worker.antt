-- ===== src/Ingest/Range/Worker.antt =====
-- One worker of `ingestRange`, and the variables that the workers share.
use twilight_core_explorer.Common.{
  ℕ, ◌+◌, String, Bool, true, false, Option, none, some, List, [], ◌∷◌, ltb, ◌==◌, is_some, keep_if,
  if◌then◌else◌,
}
use twilight_core_explorer.Ingest.Cursor.{update_cursor_success}
use twilight_core_explorer.Ingest.Store.{HeightRows, Store, write_rows}
use twilight_core_explorer.Ingest.Height.{
  Decision, write, halt_mismatch, decide, halt_at, halt_mismatch_at, mismatch_message,
}
use twilight_core_explorer.Ingest.Range.Advance.{advance_watermark}

-- The arguments of the range.
pub record Job : Type 0 where
  pub start : ℕ
  pub end' : ℕ
  pub latest_chain_height : ℕ

-- `failedHeight` and `firstError`, which are set together
pub record RangeError : Type 0 where
  pub failed_height : ℕ
  pub message : String

pub record HashEntry : Type 0 where
  pub height : ℕ
  pub hash : Option String

pub record Shared : Type 0 where
  pub next : ℕ
  pub heights_ingested : ℕ
  pub last_contiguous : Option ℕ
  pub completed_ahead : List ℕ
  pub hash_by_height : List HashEntry
  pub first_error : Option RangeError
  pub store : Store

pub data Fault : Type 0 where
  mismatch : Fault
  other : (message : String) → Fault

-- Where a worker stands.
pub data Pc : Type 0 where
  head : Pc  -- the head of the loop
  fetching : (height : ℕ) → Pc  -- the reads of `ingestHeight`
  saving : (height : ℕ) (rows : HeightRows) → Pc  -- before its transaction
  halting : (height : ℕ) (fault : Fault) → Pc  -- before the cursor is halted
  failing : (height : ℕ) (message : String) → Pc  -- before the `catch` of the worker
  saved : (height : ℕ) (hash : Option String) → Pc  -- `ingestHeight` has returned
  stamping : (height watermark : ℕ) (hash : Option String) → Pc  -- before the cursor's write
  stamped : (height : ℕ) → Pc
  done : Pc

-- the head of the loop: stop, or claim a height
unfoldable pub at_head : Job → Shared → Shared × Pc
at_head j s =
    if is_some s.first_error
    then (s, done)
    else if ltb j.end' s.next
    then (s, done)
    else (record s { next = s.next + 1 }, fetching s.next)

-- the reads are there: write, or halt
abbrev pub on_read : ℕ → HeightRows → Decision → Pc
on_read height rows write = saving height rows
on_read height rows (halt_mismatch stored fetched) = halting height mismatch

abbrev pub fault_message : Fault → String
fault_message mismatch = mismatch_message
fault_message (other message) = message

unfoldable pub halt_for : Fault → ℕ → Store → Store
unfolding halt_at halt_mismatch_at
halt_for mismatch height s = halt_mismatch_at height mismatch_message s
halt_for (other message) height s = halt_at height message s

-- `hashByHeight.get`
abbrev pub hash_at : ℕ → List HashEntry → Option String
hash_at k [] = none
hash_at k (e ∷ es) = if e.height == k then e.hash else hash_at k es

abbrev pub same_watermark : Option ℕ → Option ℕ → Bool
same_watermark none none = true
same_watermark (some a) (some b) = a == b
same_watermark _ _ = false

-- `lastContiguousHeight !== null && lastContiguousHeight !== before`
abbrev pub after_advance : ℕ → Option ℕ → Option ℕ → List HashEntry → Pc
after_advance height before none hashes = head
after_advance height before (some l) hashes =
    if same_watermark before (some l) then head else stamping height l (hash_at l hashes)

abbrev pub resumed : ℕ → Option ℕ → List HashEntry → Shared → List ℕ × Option ℕ → Shared × Pc
resumed height before hashes s r = (
  record s {
    heights_ingested = s.heights_ingested + 1;
    last_contiguous = r.1;
    completed_ahead = r.0;
    hash_by_height = hashes;
  },
  after_advance height before r.1 hashes,
)

-- after `ingestHeight` has returned, up to the next await
unfoldable pub resume : Job → ℕ → Option String → Shared → Shared × Pc
unfolding advance_watermark
resume j height hash s =
    resumed height s.last_contiguous (record { height = height; hash = hash } ∷ s.hash_by_height) s
      (advance_watermark j.start (height ∷ s.completed_ahead) s.last_contiguous)

unfoldable pub stamp_cursor : Job → ℕ → Option String → Shared → Shared
unfolding update_cursor_success
stamp_cursor j watermark hash s = record s {
  store = record s.store {
    cursor = update_cursor_success watermark hash (some j.latest_chain_height) s.store.cursor;
  };
}

abbrev pub above : Option ℕ → HashEntry → Bool
above none e = true
above (some l) e = ltb l e.height

-- the loop that forgets the hashes below the watermark
unfoldable pub forget_hashes : Shared → Shared
forget_hashes s = record s { hash_by_height = keep_if (above s.last_contiguous) s.hash_by_height }

abbrev pub lower_error : ℕ → String → Option RangeError → RangeError
lower_error height message none = record { failed_height = height; message = message }
lower_error height message (some e) =
    if ltb height e.failed_height then record { failed_height = height; message = message } else e

-- the worker's `catch`
unfoldable pub catch : ℕ → String → Shared → Shared
catch height message s = record s { first_error = some (lower_error height message s.first_error) }

abbrev pub with_store : Shared → Store → Shared
with_store s db = record s { store = db }

-- a fault of the halt for a changed hash is itself caught, and halts the cursor in its turn
abbrev pub halt_refused : ℕ → String → Fault → Pc
halt_refused height message mismatch = halting height (other message)
halt_refused height message (other first) = failing height message

-- One step of one worker; `j` is the range.
pub data Move (j : Job) (s : Shared) : Pc → Shared → Pc → Type 0 where
  turn : Move j s head (at_head j s).0 (at_head j s).1
  read_rows :
      (h : ℕ) (rows : HeightRows) → Move j s (fetching h) s (on_read h rows (decide h rows s.store))
  read_fails : (h : ℕ) (message : String) → Move j s (fetching h) s (halting h (other message))
  save :
      (h : ℕ) (rows : HeightRows)
      → Move j s
          (saving h rows)
          (with_store s (write_rows h rows s.store))
          (saved h rows.block_hash)
  save_fails :
      (h : ℕ) (rows : HeightRows) (message : String)
      → Move j s (saving h rows) s (halting h (other message))
  halt :
      (h : ℕ) (f : Fault)
      → Move j s (halting h f) (with_store s (halt_for f h s.store)) (failing h (fault_message f))
  halt_fails :
      (h : ℕ) (f : Fault) (message : String) → Move j s (halting h f) s (halt_refused h message f)
  return :
      (h : ℕ) (hash : Option String)
      → Move j s (saved h hash) (resume j h hash s).0 (resume j h hash s).1
  stamp :
      (h l : ℕ) (hash : Option String)
      → Move j s (stamping h l hash) (stamp_cursor j l hash s) (stamped h)
  stamp_fails :
      (h l : ℕ) (hash : Option String) (message : String)
      → Move j s (stamping h l hash) s (failing h message)
  forget : (h : ℕ) → Move j s (stamped h) (forget_hashes s) head
  fail : (h : ℕ) (message : String) → Move j s (failing h message) (catch h message s) done
