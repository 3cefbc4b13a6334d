-- ===== src/Examples/Events.antt =====
-- The events of a block with two transactions.
use twilight_core_explorer.Common.{ℕ, ◌≡◌, ◌≢◌, refl, some, List, [], ◌∷◌, arith, length, ap}
use twilight_core_explorer.Text.{Text, codes}
use twilight_core_explorer.Temporal.Lists.{Pairs}
use twilight_core_explorer.Draw.Bytes.{to_decimal}
use twilight_core_explorer.Ingest.Events.{tx, RawEvent, TxEvents, BlockEvents, key_of, event_rows}
use twilight_core_explorer.Ingest.Events.Keys.{IsKeyText, key_of-injective}
use twilight_core_explorer.Ingest.Events.Distinct.{OwnKey, event_rows-OwnKey}

abbrev raw_event : RawEvent
raw_event = record { event_type = some (codes "transfer"); msg_index = some 0 }

abbrev block_events : BlockEvents
block_events = record {
  height = 12;
  begin_events = [];
  end_events = [];
  finalize_events = raw_event ∷ raw_event ∷ [];
}

abbrev hash_1 : Text
hash_1 = codes "AB01"

abbrev hash_2 : Text
hash_2 = codes "CD"

abbrev tx_events : List TxEvents
tx_events =
    record { hash = hash_1; height = 12; events = raw_event ∷ raw_event ∷ [] }
    ∷ record { hash = hash_2; height = 12; events = raw_event ∷ [] }
    ∷ []

example_key : key_of 12 tx (some hash_1) 1 ≡ codes "12:tx:AB01:1"
unfolding key_of to_decimal
example_key = refl

five_rows : length (event_rows block_events tx_events) ≡ 5
unfolding event_rows
five_rows = refl

hash_1-IsKeyText : IsKeyText (some hash_1)
hash_1-IsKeyText = (refl, λ e. ground arith)

hash_2-IsKeyText : IsKeyText (some hash_2)
hash_2-IsKeyText = (refl, λ e. ground (arith, ap length e))

two_hashes : hash_1 ≢ hash_2
two_hashes e = ground (arith, ap length e)

abbrev height : ℕ
height = 12

abbrev second : ℕ
second = 1

key_of-injective_example :
    (height ≡ height) × (tx ≡ tx) × (some hash_1 ≡ some hash_1) × (second ≡ second)
key_of-injective_example =
    key_of-injective height height tx tx (some hash_1) (some hash_1) second second hash_1-IsKeyText
      hash_1-IsKeyText refl

event_rows-OwnKey_example : Pairs OwnKey (event_rows block_events tx_events)
event_rows-OwnKey_example =
    event_rows-OwnKey block_events tx_events (hash_1-IsKeyText, (hash_2-IsKeyText, tt))
      ((two_hashes, tt), (tt, tt))
