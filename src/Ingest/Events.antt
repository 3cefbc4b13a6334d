-- ===== src/Ingest/Events.antt =====
-- The events of a height as rows with their unique key: `mapEvent`, `extractEventsFromTx` and
-- `extractBlockResultEvents` of mapper.ts, and how ingest-height.ts puts them together. The columns
-- attributesJson, module and keyFieldsJson are left out.
pub mod Keys
pub mod Distinct
use twilight_core_explorer.Common.{ℕ, ◌+◌, Option, none, some, List, [], ◌∷◌, ◌++◌, with_default}
use twilight_core_explorer.Text.{Text, codes}
use twilight_core_explorer.Draw.Bytes.{to_decimal}

pub data EventPhase : Type 0 where
  begin_block end_block finalize_block tx : EventPhase

abbrev pub phase_text : EventPhase → Text
phase_text begin_block = codes "begin_block"
phase_text end_block = codes "end_block"
phase_text finalize_block = codes "finalize_block"
phase_text tx = codes "tx"

-- an event as it was fetched: what `readString` and `readNumber` read of its type and message
pub record RawEvent : Type 0 where
  pub event_type : Option Text
  pub msg_index : Option ℕ

-- `EventRow`
pub record MappedEvent : Type 0 where
  pub event_key : Text
  pub height : ℕ
  pub tx_hash : Option Text
  pub tx_index : Option ℕ
  pub msg_index : Option ℕ
  pub event_index : ℕ
  pub phase : EventPhase
  pub event_type : Text

-- the template of `eventKey`
unfoldable pub key_of : ℕ → EventPhase → Option Text → ℕ → Text
unfolding to_decimal
key_of height phase tx_hash event_index =
    to_decimal height
    ++ (b':'
        ∷ (phase_text phase
            ++ (b':' ∷ (with_default tx_hash (codes "none") ++ (b':' ∷ to_decimal event_index)))))

-- `mapEvent`
unfoldable pub map_event :
    ℕ → Option Text → Option ℕ → EventPhase → (event_index : ℕ) → RawEvent → MappedEvent
unfolding key_of
map_event height tx_hash tx_index phase event_index event = record {
  event_key = key_of height phase tx_hash event_index;
  height = height;
  tx_hash = tx_hash;
  tx_index = tx_index;
  msg_index = event.msg_index;
  event_index = event_index;
  phase = phase;
  event_type = with_default event.event_type (codes "unknown");
}

-- the `map` over events with their indices, from an index on
unfoldable pub map_events :
    ℕ → Option Text → Option ℕ → EventPhase → (event_index : ℕ) → List RawEvent → List MappedEvent
unfolding map_event
map_events height tx_hash tx_index phase event_index [] = []
map_events height tx_hash tx_index phase event_index (e ∷ es) =
    map_event height tx_hash tx_index phase event_index e
    ∷ map_events height tx_hash tx_index phase (event_index + 1) es

-- a transaction's events
pub record TxEvents : Type 0 where
  pub hash : Text
  pub height : ℕ
  pub events : List RawEvent

-- `extractEventsFromTx`
unfoldable pub extract_events_from_tx : TxEvents → (tx_index : ℕ) → List MappedEvent
unfolding map_events
extract_events_from_tx t tx_index = map_events t.height (some t.hash) (some tx_index) tx 0 t.events

-- `BlockResultsSource`
pub record BlockEvents : Type 0 where
  pub height : ℕ
  pub begin_events : List RawEvent
  pub end_events : List RawEvent
  pub finalize_events : List RawEvent

-- `extractBlockResultEvents`
unfoldable pub extract_block_result_events : BlockEvents → List MappedEvent
unfolding map_events
extract_block_result_events b =
    map_events b.height none none begin_block 0 b.begin_events
    ++ (map_events b.height none none end_block 0 b.end_events
        ++ map_events b.height none none finalize_block 0 b.finalize_events)

-- `txs.flatMap`, from an index on
unfoldable pub events_of_txs : (tx_index : ℕ) → List TxEvents → List MappedEvent
unfolding extract_events_from_tx
events_of_txs tx_index [] = []
events_of_txs tx_index (t ∷ ts) =
    extract_events_from_tx t tx_index ++ events_of_txs (tx_index + 1) ts

-- `eventRows`
unfoldable pub event_rows : BlockEvents → List TxEvents → List MappedEvent
unfolding extract_block_result_events events_of_txs
event_rows b ts = extract_block_result_events b ++ events_of_txs 0 ts
