-- ===== src/Ingest/Events/Distinct.antt =====
-- The rows of a height's events have keys of their own, so that no `upsert` of the height writes over
-- another's row.
use twilight_core_explorer.Common.{
  ℕ, ◌+◌, ◌≤◌, ◌≡◌, ◌≢◌, ◌⊎◌, inl, inr, refl, sym, ap, ◌∙◌, Option, none, some, List, [], ◌∷◌, ◌++◌,
  All, All-append, All-map, arith,
}
use twilight_core_explorer.Text.{Text}
use twilight_core_explorer.Temporal.Lists.{Pairs}
use twilight_core_explorer.Ingest.Events.{
  EventPhase, begin_block, end_block, finalize_block, tx, RawEvent, MappedEvent, TxEvents,
  BlockEvents, key_of, map_event, map_events, extract_events_from_tx, extract_block_result_events,
  events_of_txs, event_rows,
}
use twilight_core_explorer.Ingest.Events.Keys.{IsKeyText, key_of-injective}

-- the event is of a phase and a transaction, with an index from `i` on
record IsFrom (p : EventPhase) (o : Option Text) (i : ℕ) (e : MappedEvent) : Type 0 where
  height : ℕ
  index : ℕ
  from : i ≤ index
  key : e.event_key ≡ key_of height p o index

abbrev pub OwnKey : MappedEvent → MappedEvent → Type 0
OwnKey a b = a.event_key ≢ b.event_key

later :
    (p : EventPhase) (o : Option Text) (i : ℕ) (e : MappedEvent)
    → IsFrom p o (i + 1) e
    → IsFrom p o i e
later p o i e f = record {
  height = f.height;
  index = f.index;
  from = (let le = f.from in omega arith);
  key = f.key;
}

map_events-IsFrom :
    (h : ℕ) (o : Option Text) (t : Option ℕ) (p : EventPhase) (i : ℕ) (es : List RawEvent)
    → All (IsFrom p o i) (map_events h o t p i es)
unfolding map_events map_event
map_events-IsFrom h o t p i [] = tt
map_events-IsFrom h o t p i (e ∷ es) = (
  record { height = h; index = i; from = omega arith; key = refl },
  All-map (IsFrom p o (i + 1)) (IsFrom p o i) _ (later p o i)
      (map_events-IsFrom h o t p (i + 1) es),
)

apart :
    (p q : EventPhase) (o u : Option Text) (i j : ℕ) (a b : MappedEvent)
    → IsKeyText o
    → IsKeyText u
    → (p ≢ q) ⊎ (o ≢ u)
    → IsFrom p o i a
    → IsFrom q u j b
    → OwnKey a b
apart p q o u i j a b k l d f g e = elim d [
  | inl n ↦ n (key_of-injective _ _ p q o u _ _ k l (sym f.key ∙ e ∙ g.key)).1
  | inr n ↦ n (key_of-injective _ _ p q o u _ _ k l (sym f.key ∙ e ∙ g.key)).2
]

first_apart :
    (p : EventPhase) (o : Option Text) (i h : ℕ) (a b : MappedEvent)
    → IsKeyText o
    → a.event_key ≡ key_of h p o i
    → IsFrom p o (i + 1) b
    → OwnKey a b
first_apart p o i h a b k f g e =
    let same = (key_of-injective h g.height p p o o i g.index k k (sym f ∙ e ∙ g.key)).3 in
    let le = g.from in omega arith

map_events-OwnKey :
    (h : ℕ) (o : Option Text) (t : Option ℕ) (p : EventPhase) (i : ℕ) (es : List RawEvent)
    → IsKeyText o
    → Pairs OwnKey (map_events h o t p i es)
unfolding map_events map_event
map_events-OwnKey h o t p i [] k = tt
map_events-OwnKey h o t p i (e ∷ es) k = (
  All-map (IsFrom p o (i + 1)) _ _ (λ b. first_apart p o i h (map_event h o t p i e) b k refl)
      (map_events-IsFrom h o t p (i + 1) es),
  map_events-OwnKey h o t p (i + 1) es k,
)

Pairs-append-All :
    (xs ys : List MappedEvent)
    → Pairs OwnKey xs
    → Pairs OwnKey ys
    → All (λ x. All (OwnKey x) ys) xs
    → Pairs OwnKey (xs ++ ys)
Pairs-append-All [] ys p q a = q
Pairs-append-All (x ∷ xs) ys p q a =
    (All-append (OwnKey x) xs ys p.0 a.0, Pairs-append-All xs ys p.1 q a.1)

cross :
    (p q : EventPhase) (o u : Option Text) (xs ys : List MappedEvent)
    → IsKeyText o
    → IsKeyText u
    → (p ≢ q) ⊎ (o ≢ u)
    → All (IsFrom p o 0) xs
    → All (IsFrom q u 0) ys
    → All (λ x. All (OwnKey x) ys) xs
cross p q o u xs ys k l d f g =
    All-map (IsFrom p o 0) _ xs
      (λ x h. All-map (IsFrom q u 0) (OwnKey x) ys (λ y. apart p q o u 0 0 x y k l d h) g) f

-- an event of no transaction of a list, against the list's events
against_txs :
    (p : EventPhase) (o : Option Text) (x : MappedEvent) (k : ℕ) (ts : List TxEvents)
    → IsKeyText o
    → IsFrom p o 0 x
    → All (λ (t : TxEvents). IsKeyText (some t.hash)) ts
    → All (λ (t : TxEvents). o ≢ some t.hash) ts
    → All (OwnKey x) (events_of_txs k ts)
unfolding events_of_txs extract_events_from_tx
against_txs p o x k [] l f a n = tt
against_txs p o x k (t ∷ ts) l f a n =
    All-append (OwnKey x) (extract_events_from_tx t k) (events_of_txs (k + 1) ts)
      (All-map (IsFrom tx (some t.hash) 0) (OwnKey x) _
        (λ y. apart p tx o (some t.hash) 0 0 x y l a.0 (inr n.0) f)
        (map_events-IsFrom t.height (some t.hash) (some k) tx 0 t.events))
      (against_txs p o x (k + 1) ts l f a.1 n.1)

other_hash : (g : Text) (h : Text) → g ≢ h → some g ≢ some h
other_hash g h n e = n cc

events_of_txs-OwnKey :
    (k : ℕ) (ts : List TxEvents)
    → All (λ (t : TxEvents). IsKeyText (some t.hash)) ts
    → Pairs (λ (t u : TxEvents). t.hash ≢ u.hash) ts
    → Pairs OwnKey (events_of_txs k ts)
unfolding events_of_txs extract_events_from_tx
events_of_txs-OwnKey k [] a d = tt
events_of_txs-OwnKey k (t ∷ ts) a d =
    Pairs-append-All (extract_events_from_tx t k) (events_of_txs (k + 1) ts)
      (map_events-OwnKey t.height (some t.hash) (some k) tx 0 t.events a.0)
      (events_of_txs-OwnKey (k + 1) ts a.1 d.1)
      (All-map (IsFrom tx (some t.hash) 0) _ _
        (λ x f.
          against_txs tx (some t.hash) x (k + 1) ts a.0 f a.1
            (All-map _ _ ts (λ u. other_hash t.hash u.hash) d.0))
        (map_events-IsFrom t.height (some t.hash) (some k) tx 0 t.events))

no_hash : (ts : List TxEvents) → All (λ (t : TxEvents). none ≢ some t.hash) ts
no_hash [] = tt
no_hash (t ∷ ts) = (λ e. cc, no_hash ts)

from_block :
    (p : EventPhase) (xs : List MappedEvent) (ts : List TxEvents)
    → All (λ (t : TxEvents). IsKeyText (some t.hash)) ts
    → All (IsFrom p none 0) xs
    → All (λ x. All (OwnKey x) (events_of_txs 0 ts)) xs
from_block p xs ts a f =
    All-map (IsFrom p none 0) _ xs (λ x g. against_txs p none x 0 ts tt g a (no_hash ts)) f

phase_code : EventPhase → ℕ
phase_code begin_block = 0
phase_code end_block = 1
phase_code finalize_block = 2
phase_code tx = 3

other_phase : (p q : EventPhase) → phase_code p ≢ phase_code q → p ≢ q
other_phase p q n e = n (ap phase_code e)

block_events-OwnKey : (b : BlockEvents) → Pairs OwnKey (extract_block_result_events b)
unfolding extract_block_result_events phase_code
block_events-OwnKey b =
    let xs = map_events b.height none none begin_block 0 b.begin_events in
    let ys = map_events b.height none none end_block 0 b.end_events in
    let zs = map_events b.height none none finalize_block 0 b.finalize_events in
    let fx = map_events-IsFrom b.height none none begin_block 0 b.begin_events in
    let fy = map_events-IsFrom b.height none none end_block 0 b.end_events in
    let fz = map_events-IsFrom b.height none none finalize_block 0 b.finalize_events in
    Pairs-append-All xs (ys ++ zs)
      (map_events-OwnKey b.height none none begin_block 0 b.begin_events tt)
      (Pairs-append-All ys zs (map_events-OwnKey b.height none none end_block 0 b.end_events tt)
        (map_events-OwnKey b.height none none finalize_block 0 b.finalize_events tt)
        (cross end_block finalize_block none none ys zs tt tt
          (inl (other_phase end_block finalize_block (λ e. omega arith))) fy fz))
      (both xs ys zs
        (cross begin_block end_block none none xs ys tt tt
          (inl (other_phase begin_block end_block (λ e. omega arith))) fx fy)
        (cross begin_block finalize_block none none xs zs tt tt
          (inl (other_phase begin_block finalize_block (λ e. omega arith))) fx fz))
  where
    both :
        (xs ys zs : List MappedEvent)
        → All (λ x. All (OwnKey x) ys) xs
        → All (λ x. All (OwnKey x) zs) xs
        → All (λ x. All (OwnKey x) (ys ++ zs)) xs
    both [] ys zs f g = tt
    both (x ∷ xs) ys zs f g = (All-append (OwnKey x) ys zs f.0 g.0, both xs ys zs f.1 g.1)

block_events_against :
    (b : BlockEvents) (ts : List TxEvents)
    → All (λ (t : TxEvents). IsKeyText (some t.hash)) ts
    → All (λ x. All (OwnKey x) (events_of_txs 0 ts)) (extract_block_result_events b)
unfolding extract_block_result_events
block_events_against b ts a =
    let P = λ (x : MappedEvent). All (OwnKey x) (events_of_txs 0 ts) in
    All-append P _ _
      (from_block begin_block _ ts a
        (map_events-IsFrom b.height none none begin_block 0 b.begin_events))
      (All-append P _ _
        (from_block end_block _ ts a
          (map_events-IsFrom b.height none none end_block 0 b.end_events))
        (from_block finalize_block _ ts a
          (map_events-IsFrom b.height none none finalize_block 0 b.finalize_events)))

-- The events of a height, of the block's phases and of its transactions, have keys that differ from one
-- another, where the transactions' hashes do and are neither `none` nor have a colon.
pub event_rows-OwnKey :
    (b : BlockEvents) (ts : List TxEvents)
    → All (λ (t : TxEvents). IsKeyText (some t.hash)) ts
    → Pairs (λ (t u : TxEvents). t.hash ≢ u.hash) ts
    → Pairs OwnKey (event_rows b ts)
unfolding event_rows
event_rows-OwnKey b ts a d =
    Pairs-append-All (extract_block_result_events b) (events_of_txs 0 ts) (block_events-OwnKey b)
      (events_of_txs-OwnKey 0 ts a d) (block_events_against b ts a)
