-- ===== src/Examples/Ingest.antt =====
-- A range of two heights with two workers, the second height finished first, and one height twice.
use twilight_core_explorer.Common.{
  ℕ, zero, suc, ◌<◌, ◌≡◌, ◌≢◌, str_eq_iff, refl, String, ◌==◌, ==_iff, Bool-cases, inl, inr, subst,
  if◌then◌else◌, true, none, some, [], ◌∷◌, arith,
}
use twilight_core_explorer.Json.{null}
use twilight_core_explorer.Ingest.Cursor.{idle}
use twilight_core_explorer.Ingest.Store.{HeightRows, Store, find_block, write_rows}
use twilight_core_explorer.Ingest.Height.{
  decide, write, ingested, hash_mismatch, ingest_height, read, counts,
}
use twilight_core_explorer.Ingest.Height.Laws.{ReadsOneHash, ingest_height-hash_kept}
use twilight_core_explorer.Ingest.Height.Repeat.{no_faults, ingest_height-Repeated}
use twilight_core_explorer.Ingest.Store.Laws.{Repeated}
use twilight_core_explorer.Ingest.Range.Advance.{advance_watermark}
use twilight_core_explorer.Ingest.Range.Worker.{
  Job, done, at_head, resume, stamp_cursor, forget_hashes, turn, read_rows, save, return, stamp,
  forget,
}
use twilight_core_explorer.Ingest.Range.System.{
  System, Reach, begin, next, pick, range_result, finished,
}
use twilight_core_explorer.Ingest.Range.Invariant.Defs.{Honest, Upto}
use twilight_core_explorer.Ingest.Range.Termination.{Follows, Follows-Acc}
use twilight_core_explorer.Ingest.Range.Completion.{IsClean, Run, Reach-completes}
use twilight_core_explorer.Ingest.Range.Completion.Moves.{IsSound, Agrees}
use mathlib.Core.WellFounded.{Acc}
use twilight_core_explorer.Ingest.Range.Safety.{Reach-Honest, Reach-finished}

abbrev job : Job
job = record { start = 1; end' = 2; latest_chain_height = 9 }

abbrev empty_store : Store
empty_store = record {
  blocks = [];
  transactions = [];
  messages = [];
  events = [];
  accounts = [];
  decode_failures = [];
  cursor = some (record {
    last_indexed_height = 0;
    last_indexed_hash = none;
    latest_chain_height = none;
    status = idle;
    error = none;
  });
}

abbrev rows_with : String → HeightRows
rows_with hash = record {
  block_hash = some hash;
  raw_hash = some hash;
  block = null;
  transactions = record { hash = "T1"; content = null } ∷ [];
  messages = [];
  decode_failures = record { height = 1; content = null } ∷ [];
  events = record { event_key = "1:tx:T1:0"; content = null } ∷ [];
  account_addresses = "twilight1abc" ∷ [];
}

empty_store-Honest : Honest job empty_store
empty_store-Honest = record { cursor = _; stored = refl; upto = λ k a b. absurd (omega arith) }

-- both heights are claimed, and the second is stored before the first has been read
abbrev halfway : (s : System) × Reach 2 job empty_store s
unfolding at_head decide find_block
halfway =
    let claimed = next (next begin (pick 0 (omega arith) turn)) (pick 1 (omega arith) turn) in
    (
      _,
      next (next claimed (pick 1 (omega arith) (read_rows 2 (rows_with "B"))))
          (pick 1 (omega arith) (save 2 (rows_with "B"))),
    )

-- the second height waits for the first, which then takes the watermark over both
abbrev whole : (s : System) × Reach 2 job empty_store s
unfolding at_head decide find_block write_rows resume advance_watermark stamp_cursor forget_hashes
whole =
    let waiting =
      next (next halfway.1 (pick 1 (omega arith) (return 2 (some "B"))))
        (pick 1 (omega arith) turn) in
    let first =
      next (next waiting (pick 0 (omega arith) (read_rows 1 (rows_with "A"))))
        (pick 0 (omega arith) (save 1 (rows_with "A"))) in
    let over = next first (pick 0 (omega arith) (return 1 (some "A"))) in
    let stamped = next over (pick 0 (omega arith) (stamp 1 2 (some "B"))) in
    (_, next (next stamped (pick 0 (omega arith) (forget 1))) (pick 0 (omega arith) turn))

Reach-Honest_example : Honest job halfway.0.shared.store
Reach-Honest_example = Reach-Honest (omega arith) empty_store-Honest halfway.1

whole-done : (i : ℕ) → i < 2 → whole.0.pc i ≡ done
unfolding at_head decide find_block write_rows resume advance_watermark stamp_cursor forget_hashes
whole-done zero lt = refl
whole-done (suc zero) lt = refl
whole-done (suc (suc i)) lt = absurd (omega arith)

whole_clean : whole.0.shared.first_error ≡ none
unfolding at_head decide find_block write_rows resume advance_watermark stamp_cursor forget_hashes
whole_clean = refl

Reach-finished_example :
    (range_result whole.0.shared ≡ finished (some 2) whole.0.shared.heights_ingested)
    × Upto job 2 whole.0.shared.store
Reach-finished_example =
    Reach-finished (omega arith) (omega arith) empty_store-Honest whole.1 whole-done whole_clean

Follows-Acc_example : Acc (Follows 2 job) halfway.0
Follows-Acc_example = Follows-Acc 2 job halfway.0

-- the node's answers: the block of height 2, and at every other height that of height 1
abbrev node : ℕ → HeightRows
node k = if k == 2 then rows_with "B" else rows_with "A"

halfway-IsSound : (i : ℕ) → i < 2 → IsSound node (halfway.0.pc i)
unfolding at_head decide find_block write_rows
halfway-IsSound zero lt = tt
halfway-IsSound (suc zero) lt = tt
halfway-IsSound (suc (suc i)) lt = absurd (omega arith)

-- Of the blocks, only that of height 2 is stored.
halfway-Agrees : Agrees node halfway.0.shared.store
unfolding at_head decide find_block write_rows
halfway-Agrees k = elim (Bool-cases (2 == k)) [
  | inl e ↦ subst (λ x. decide x (node x) halfway.0.shared.store ≡ write) ((==_iff 2 k).0 e) refl
  | inr e ↦ rw e refl
]

halfway-IsClean : IsClean node 2 halfway.0
unfolding at_head decide find_block write_rows
halfway-IsClean = record { clean = refl; sound = halfway-IsSound; agrees = halfway-Agrees }

Reach-completes_example :
    (t : System) × (Run node 2 job halfway.0 t
      × ((i : ℕ) → i < 2 → t.pc i ≡ done)
      × (range_result t.shared ≡ finished (some 2) t.shared.heights_ingested)
      × Upto job 2 t.shared.store)
Reach-completes_example =
    Reach-completes node (omega arith) (omega arith) empty_store-Honest halfway.1 halfway-IsClean

-- A block with another hash halts, and the stored hash stays.
abbrev hash_a : String
hash_a = "A"

not-empty : hash_a ≢ ""
not-empty e = ground (arith, str_eq_iff hash_a "")

abbrev stored : Store
stored = (ingest_height true 1 (some 9) (read (rows_with "A")) no_faults empty_store).1

another_hash :
    (ingest_height true 1 (some 9) (read (rows_with "B")) no_faults stored).0
    ≡ hash_mismatch 1 "A" "B"
unfolding ingest_height decide find_block write_rows
another_hash = refl

one_hash : ReadsOneHash (read (rows_with "B"))
one_hash e = cc

ingest_height-hash_kept_example : hash_a ≡ hash_a
unfolding ingest_height decide find_block write_rows
ingest_height-hash_kept_example =
    ingest_height-hash_kept true 1 (some 9) (read (rows_with "B")) no_faults stored 1 hash_a hash_a
      one_hash refl not-empty refl not-empty

-- The same height twice writes its one decode failure twice.
ingest_height-Repeated_example :
    let t = (ingest_height true 1 (some 9) (read (rows_with "A")) no_faults empty_store).1 in
    let again = ingest_height true 1 (some 9) (read (rows_with "A")) no_faults t in
    (again.0 ≡ ingested (counts 1 (rows_with "A"))) × Repeated (rows_with "A") t again.1
unfolding decide find_block
ingest_height-Repeated_example =
    ingest_height-Repeated true 1 (some 9) (rows_with "A") empty_store refl
