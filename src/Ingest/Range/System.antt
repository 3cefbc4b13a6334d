-- ===== src/Ingest/Range/System.antt =====
-- `ingestRange`: `concurrency` workers, interleaved in any order, and what the call returns.
use twilight_core_explorer.Common.{ℕ, ◌<◌, String, Option, none, some, [], ◌==◌, if◌then◌else◌}
use twilight_core_explorer.Ingest.Store.{Store}
use twilight_core_explorer.Ingest.Range.Worker.{Job, Shared, RangeError, Pc, head, Move}

-- A worker's number from `concurrency` on names no worker: it stays at the head and is never picked.
pub record System : Type 0 where
  pub shared : Shared
  pub pc : ℕ → Pc

abbrev pub update : (ℕ → Pc) → ℕ → Pc → ℕ → Pc
update f i p k = if k == i then p else f k

pub data Step (n : ℕ) (j : Job) (s : System) : System → Type 0 where
  pick :
      (i : ℕ) {sh : Shared} {p : Pc}
      → i < n
      → Move j s.shared (s.pc i) sh p
      → Step n j s (record { shared = sh; pc = update s.pc i p })

-- the variables before the workers start
abbrev pub initial : Job → Store → System
initial j db = record {
  shared = record {
    next = j.start;
    heights_ingested = 0;
    last_contiguous = none;
    completed_ahead = [];
    hash_by_height = [];
    first_error = none;
    store = db;
  };
  pc = λ i. head;
}

pub data Reach (n : ℕ) (j : Job) (db : Store) : System → Type 0 where
  begin : Reach n j db (initial j db)
  next : {s t : System} → Reach n j db s → Step n j s t → Reach n j db t

-- `IngestRangeResult`, or the error that is thrown
pub data RangeResult : Type 0 where
  finished : (last_contiguous_height : Option ℕ) (heights_ingested : ℕ) → RangeResult
  threw : (message : String) → RangeResult

abbrev result_of : Option RangeError → Shared → RangeResult
result_of none s = finished s.last_contiguous s.heights_ingested
result_of (some e) s = threw e.message

-- what `ingestRange` does once every worker is done
unfoldable pub range_result : Shared → RangeResult
range_result s = result_of s.first_error s
