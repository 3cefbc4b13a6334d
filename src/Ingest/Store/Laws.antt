-- ===== src/Ingest/Store/Laws.antt =====
-- What the transaction of a height leaves in the table of blocks, and what a second one changes.
use twilight_core_explorer.Common.{
  ◌++◌, Bool, ℕ, String, ◌≡◌, refl, true, false, Bool-cases, inl, inr, none, some, Option, List,
  ◌==◌, or_else, if◌then◌else◌, ==_iff,
}
use twilight_core_explorer.Common.Tables.{
  Eq, find, upsert_all, last_of, find-upsert, find-upsert_all, nat_eq, string_eq,
}
use twilight_core_explorer.Ingest.Store.{
  row_hash, BlockRow, TransactionRow, EventRow, message_key, message_eq, HeightRows, Store,
  write_rows, find_block,
}

-- The height's block is stored.
abbrev pub Indexed : ℕ → Store → Type 0
Indexed k s = (b : BlockRow) × (find_block k s ≡ some b)

abbrev pub written : ℕ → HeightRows → BlockRow
written h rows = record { height = h; hash = row_hash rows; content = rows.block }

pub find_block-write_rows :
    (k h : ℕ) (rows : HeightRows) (s : Store)
    → find_block k (write_rows h rows s)
      ≡ (if h == k then some (written h rows) else find_block k s)
unfolding find_block write_rows
find_block-write_rows k h rows s =
    find-upsert (λ (b : BlockRow). b.height) k (written h rows) s.blocks

pub write_rows-Indexed_other :
    (k h : ℕ) (rows : HeightRows) (s : Store) → Indexed k s → Indexed k (write_rows h rows s)
write_rows-Indexed_other k h rows s (b, e) = elim (Bool-cases (h == k)) [
  | inl t ↦ (written h rows, rw (find_block-write_rows k h rows s, t) refl)
  | inr t ↦ (b, rw (find_block-write_rows k h rows s, t) e)
]

pub write_rows-Indexed_self :
    (h : ℕ) (rows : HeightRows) (s : Store) → Indexed h (write_rows h rows s)
write_rows-Indexed_self h rows s =
    (written h rows, rw (find_block-write_rows h h rows s, (==_iff h h).1 refl) refl)

or_else_twice {ℓ} : {A : Type ℓ} (o p : Option A) → or_else o (or_else o p) ≡ or_else o p
or_else_twice none p = refl
or_else_twice (some a) p = refl

upsert_all_twice {ℓ κ} :
    {K : Type ℓ} {R : Type κ} ⦃e : Eq K⦄ (key : R → K) (k : K) (cs rs : List R)
    → find key k (upsert_all key cs (upsert_all key cs rs)) ≡ find key k (upsert_all key cs rs)
upsert_all_twice key k cs rs =
    rw (find-upsert_all key k cs (upsert_all key cs rs), find-upsert_all key k cs rs)
      (or_else_twice (last_of key k cs) (find key k rs))

-- what a second transaction with the same rows leaves as it was, and what it adds
pub record Repeated (rows : HeightRows) (s t : Store) : Type 0 where
  pub blocks : (k : ℕ) → find_block k t ≡ find_block k s
  pub transactions :
      (k : String)
      → find (λ (r : TransactionRow). r.hash) k t.transactions
        ≡ find (λ (r : TransactionRow). r.hash) k s.transactions
  pub messages : (k : String × ℕ) → find message_key k t.messages ≡ find message_key k s.messages
  pub events :
      (k : String)
      → find (λ (r : EventRow). r.event_key) k t.events
        ≡ find (λ (r : EventRow). r.event_key) k s.events
  pub decode_failures : t.decode_failures ≡ s.decode_failures ++ rows.decode_failures

if_twice {ℓ} :
    {A : Type ℓ} (b : Bool) (x y : A) → (if b then x else if b then x else y) ≡ (if b then x else y)
if_twice true x y = refl
if_twice false x y = refl

pub write_rows-Repeated :
    (h : ℕ) (rows : HeightRows) (s : Store)
    → Repeated rows (write_rows h rows s) (write_rows h rows (write_rows h rows s))
unfolding write_rows
write_rows-Repeated h rows s = record {
  blocks = λ k.
      rw (find_block-write_rows k h rows (write_rows h rows s), find_block-write_rows k h rows s)
        (if_twice (h == k) _ _);
  transactions =
      λ k. upsert_all_twice (λ (r : TransactionRow). r.hash) k rows.transactions s.transactions;
  messages = λ k. upsert_all_twice message_key k rows.messages s.messages;
  events = λ k. upsert_all_twice (λ (r : EventRow). r.event_key) k rows.events s.events;
  decode_failures = refl;
}
