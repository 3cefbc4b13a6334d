-- ===== src/Ingest/Store.antt =====
-- The tables that ingestion writes, and the transaction of `ingestHeight` (ingest-height.ts). The
-- columns of a row that ingestion only carries are one JSON value, `content`.
pub mod Laws
use text.Mathlib.Text.{starts_with}
use twilight_core_explorer.Common.{
  or_else, if◌then◌else◌, ℕ, String, Bool, true, ◌&&◌, ◌==◌, str_eq, str_eq_iff, ◌≡◌, ◌↔◌, arith,
  Option, List, [], ◌∷◌, ◌++◌,
}
use twilight_core_explorer.Common.Tables.{Eq, nat_eq, string_eq, find, upsert, upsert_all}
use twilight_core_explorer.Json.{Json}
use twilight_core_explorer.Ingest.Cursor.{IndexerCursor}

pub record BlockRow : Type 0 where
  pub height : ℕ
  pub hash : Option String
  pub content : Json

pub record TransactionRow : Type 0 where
  pub hash : String
  pub content : Json

-- `txHash_msgIndex`
pub record MessageRow : Type 0 where
  pub tx_hash : String
  pub msg_index : ℕ
  pub content : Json

pub record EventRow : Type 0 where
  pub event_key : String
  pub content : Json

pub record DecodeFailureRow : Type 0 where
  pub height : ℕ
  pub content : Json

pub record AccountRow : Type 0 where
  pub address : String
  pub first_seen_height : ℕ
  pub last_seen_height : ℕ
  pub tx_count : ℕ
  pub account_kind : String

-- What the mapper makes of a fetched height: `block_hash` is `block.hash`, and `raw_hash` is
-- `block_id.hash` in the raw block, which `mapBlockSourceToBlockRow` takes where there is no other.
pub record HeightRows : Type 0 where
  pub block_hash : Option String
  pub raw_hash : Option String
  pub block : Json
  pub transactions : List TransactionRow
  pub messages : List MessageRow
  pub decode_failures : List DecodeFailureRow
  pub events : List EventRow
  pub account_addresses : List String

-- the `hash` of the block's row
abbrev pub row_hash : HeightRows → Option String
row_hash rows = or_else rows.block_hash rows.raw_hash

pub record Store : Type 0 where
  pub blocks : List BlockRow
  pub transactions : List TransactionRow
  pub messages : List MessageRow
  pub events : List EventRow
  pub accounts : List AccountRow
  pub decode_failures : List DecodeFailureRow
  pub cursor : Option IndexerCursor

abbrev key_test : String × ℕ → String × ℕ → Bool
key_test (a, m) (b, n) = str_eq a b && m == n

pub key_test_iff : (a b : String × ℕ) → (key_test a b ≡ true) ↔ (a ≡ b)
key_test_iff (a, m) (b, n) = ground (arith, str_eq_iff a b)

instance abbrev pub message_eq : Eq (String × ℕ)
message_eq = record { beq = key_test; beq_iff = key_test_iff }

abbrev pub message_key : MessageRow → String × ℕ
message_key m = (m.tx_hash, m.msg_index)

-- the loop over the account addresses: a new account starts at the height, a known one is seen again
unfoldable pub upsert_accounts : ℕ → List String → List AccountRow → List AccountRow
unfolding upsert
upsert_accounts height [] accounts = accounts
upsert_accounts height (a ∷ as') accounts = upsert_accounts height as' (
    upsert (λ (r : AccountRow). r.address)
      (record {
        address = a;
        first_seen_height = height;
        last_seen_height = height;
        tx_count = 1;
        account_kind = if starts_with a "module:" then "module" else "unknown";
      })
      (λ r. record r { last_seen_height = height }) accounts)

-- the transaction of `ingestHeight`, without the cursor
unfoldable pub write_rows : ℕ → HeightRows → Store → Store
unfolding upsert upsert_all upsert_accounts
write_rows height rows s = record {
  blocks =
      (let row : BlockRow = record {
        height = height;
        hash = row_hash rows;
        content = rows.block;
      } in
        upsert (λ (b : BlockRow). b.height) row (λ b. row) s.blocks);
  transactions = upsert_all (λ (t : TransactionRow). t.hash) rows.transactions s.transactions;
  messages = upsert_all message_key rows.messages s.messages;
  events = upsert_all (λ (e : EventRow). e.event_key) rows.events s.events;
  accounts = upsert_accounts height rows.account_addresses s.accounts;
  decode_failures = s.decode_failures ++ rows.decode_failures;
  cursor = s.cursor;
}

-- `block.findUnique`
unfoldable pub find_block : ℕ → Store → Option BlockRow
unfolding find
find_block height s = find (λ (b : BlockRow). b.height) height s.blocks
