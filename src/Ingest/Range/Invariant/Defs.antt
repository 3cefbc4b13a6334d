-- ===== src/Ingest/Range/Invariant/Defs.antt =====
-- The invariant of `ingestRange`: what the shared variables, the database and each worker's place say.
use twilight_core_explorer.Common.{ℕ, suc, ◌≤◌, ◌<◌, ◌≡◌, ◌≢◌, ◌⊎◌, true, false, none, some}
use twilight_core_explorer.Ingest.Cursor.{IndexerCursor}
use twilight_core_explorer.Ingest.Store.{Store}
use twilight_core_explorer.Ingest.Store.Laws.{Indexed}
use twilight_core_explorer.Ingest.Range.Advance.{has, front}
use twilight_core_explorer.Ingest.Range.Worker.{
  Job, Shared, Pc, head, fetching, saving, halting, failing, saved, stamping, stamped, done,
}
use twilight_core_explorer.Ingest.Range.System.{System}

-- every height from the start of the range up to `l` is stored
abbrev pub Upto : Job → ℕ → Store → Type 0
Upto j l db = (k : ℕ) → j.start ≤ k → k ≤ l → Indexed k db

-- the height that a worker is to bring in
abbrev pub Claimed : Job → Shared → ℕ → Type 0
Claimed j s h = (j.start ≤ h) × (h < s.next)

abbrev pub front_of : Job → Shared → ℕ
front_of j s = front j.start s.last_contiguous

-- what a worker's place says
abbrev pub Knows : Job → Shared → Pc → Type 0
Knows j s head = Unit {0}
Knows j s (fetching h) = Claimed j s h
Knows j s (saving h rows) = Claimed j s h
Knows j s (halting h f) = Claimed j s h
Knows j s (failing h m) = Unit {0}
Knows j s (saved h hash) = Claimed j s h × Indexed h s.store
Knows j s (stamping h l hash) = Upto j l s.store
Knows j s (stamped h) = Unit {0}
Knows j s done = (s.first_error ≢ none) ⊎ (j.end' < s.next)

-- the worker still answers for the height
abbrev pub Owns : Pc → ℕ → Type 0
Owns (fetching h) k = h ≡ k
Owns (saving h rows) k = h ≡ k
Owns (halting h f) k = h ≡ k
Owns (failing h m) k = h ≡ k
Owns (saved h hash) k = h ≡ k
Owns _ k = ⊥

-- where a claimed height is
pub data Accounted (n : ℕ) (j : Job) (s : Shared) (pc : ℕ → Pc) (k : ℕ) : Type 0 where
  behind : k < front_of j s → Accounted n j s pc k
  waiting : has k s.completed_ahead ≡ true → Accounted n j s pc k
  owned : (i : ℕ) → i < n → Owns (pc i) k → Accounted n j s pc k
  gone_wrong : s.first_error ≢ none → Accounted n j s pc k

-- the watermark in the database says nothing that is not so
pub record Honest (j : Job) (db : Store) : Type 0 where
  pub cursor : IndexerCursor
  pub stored : db.cursor ≡ some cursor
  pub upto : Upto j cursor.last_indexed_height db

-- what the shared variables say
pub record Settled (j : Job) (s : Shared) : Type 0 where
  pub next_low : j.start ≤ s.next
  pub next_high : s.next ≤ suc j.end'
  pub front_low : j.start ≤ front_of j s
  pub front_high : front_of j s ≤ s.next
  pub front_open : has (front_of j s) s.completed_ahead ≡ false
  pub below : (k : ℕ) → j.start ≤ k → k < front_of j s → Indexed k s.store
  pub ahead : (k : ℕ) → has k s.completed_ahead ≡ true → Claimed j s k × Indexed k s.store
  pub honest : Honest j s.store

pub record Inv (n : ℕ) (j : Job) (s : System) : Type 0 where
  pub settled : Settled j s.shared
  pub knows : (i : ℕ) → i < n → Knows j s.shared (s.pc i)
  pub accounted : (k : ℕ) → j.start ≤ k → k < s.shared.next → Accounted n j s.shared s.pc k
