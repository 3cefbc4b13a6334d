-- ===== src/Ingest/Range/Completion.antt =====
-- `ingestRange` from a state in which nothing has failed: a way on to the end of the range.
pub mod Moves
use mathlib.Core.WellFounded.{Acc}
use twilight_core_explorer.Common.{
  ℕ, zero, suc, ◌<◌, ◌≤◌, ◌≡◌, ◌⊎◌, inl, inr, none, some, arith, subst, Bool-cases, ◌==◌, ==_iff,
}
use twilight_core_explorer.Ingest.Store.{HeightRows, Store}
use twilight_core_explorer.Ingest.Range.Worker.{Job, Shared, Pc, done, Move}
use twilight_core_explorer.Ingest.Range.System.{
  System, update, pick, Reach, next, range_result, finished,
}
use twilight_core_explorer.Ingest.Range.Invariant.Defs.{Honest, Upto}
use twilight_core_explorer.Ingest.Range.Termination.{Follows, Follows-Acc}
use twilight_core_explorer.Ingest.Range.Safety.{Reach-finished}
use twilight_core_explorer.Ingest.Range.Completion.Moves.{
  Agrees, IsSound, ReadsFrom, Onward, onward,
}

-- Nothing has failed, and what is stored or in hand is what the node answers.
pub record IsClean (node : ℕ → HeightRows) (n : ℕ) (s : System) : Type 0 where
  pub clean : s.shared.first_error ≡ none
  pub sound : (i : ℕ) → i < n → IsSound node (s.pc i)
  pub agrees : Agrees node s.shared.store

abbrev AllDone : ℕ → System → Type 0
AllDone n s = (i : ℕ) → i < n → s.pc i ≡ done

one_more : (n : ℕ) (s : System) → s.pc n ≡ done → AllDone n s → AllDone (suc n) s
one_more n s e f i lt = elim (Bool-cases (n == i)) [
  | inl q ↦ (let same : n ≡ i = (==_iff n i).0 q in subst (λ k. s.pc k ≡ done) same e)
  | inr q ↦ f i (ground arith)
]

module _ (node : ℕ → HeightRows) where
  -- some worker can go on, or all are done
  busy :
      (n : ℕ) (j : Job) (s : System)
      → IsClean node n s
      → AllDone n s ⊎ ((i : ℕ) × ((i < n) × Onward node j s.shared (s.pc i)))
  busy zero j s c = inl (λ i lt. absurd (omega arith))
  busy (suc n) j s c =
      elim (onward node j s.shared (s.pc n) c.clean (c.sound n (omega arith)) c.agrees) [
        | inr o ↦ inr (n, (omega arith, o))
        | inl e ↦
            elim (busy n j s (record {
              clean = c.clean;
              sound = λ i lt. c.sound i (omega arith);
              agrees = c.agrees;
            })) [ inr (i, (lt, o)) ↦ inr (i, (omega arith, o)) | inl f ↦ inl (one_more n s e f) ]
      ]

  update-IsSound :
      (n i : ℕ) (pc : ℕ → Pc) (p : Pc)
      → IsSound node p
      → ((k : ℕ) → k < n → IsSound node (pc k))
      → (k : ℕ) → k < n
      → IsSound node (update pc i p k)
  update-IsSound n i pc p e f k lt = elim (Bool-cases (k == i)) [
    | inl q ↦ rw q e
    | inr q ↦ rw q (f k lt)
  ]

-- steps from one state to another, which read what the node answers
pub data Run (node : ℕ → HeightRows) (n : ℕ) (j : Job) : System → System → Type 0 where
  here : {s : System} → Run node n j s s
  on :
      {s t : System} (i : ℕ) {sh : Shared} {p : Pc}
      → i < n
      → Move j s.shared (s.pc i) sh p
      → ReadsFrom node (s.pc i) p
      → Run node n j (record { shared = sh; pc = update s.pc i p }) t
      → Run node n j s t

Reach-Run :
    {node : ℕ → HeightRows} {n : ℕ} {j : Job} {db : Store} {s t : System}
    → Reach n j db s
    → Run node n j s t
    → Reach n j db t
Reach-Run r here = r
Reach-Run r (on i lt move reads run) = Reach-Run (next r (pick i lt move)) run

record Ended (node : ℕ → HeightRows) (n : ℕ) (j : Job) (s : System) : Type 0 where
  last : System
  run : Run node n j s last
  over : AllDone n last
  clean : last.shared.first_error ≡ none

run_to_end :
    {node : ℕ → HeightRows} {n : ℕ} {j : Job} (s : System)
    → Acc (Follows n j) s
    → IsClean node n s
    → Ended node n j s
run_to_end {node} {n} {j} s (Acc.intro _ smaller) c = elim (busy node n j s c) [
  | inl f ↦ record { last = s; run = here; over = f; clean = c.clean }
  | inr (i, (lt, o)) ↦
      (let rest =
          run_to_end (record { shared = o.shared; pc = update s.pc i o.pc })
            (smaller _ (pick i lt o.move))
            (record {
              clean = o.clean;
              sound = update-IsSound node n i s.pc o.pc o.sound c.sound;
              agrees = o.agrees;
            }) in
        record {
          last = rest.last;
          run = on i lt o.move o.reads rest.run;
          over = rest.over;
          clean = rest.clean;
        })
]

-- For a range that is not empty, with at least one worker, and a cursor that is there and honest
-- before the range: from every state that the workers can reach in which nothing has failed and the
-- node's answers contradict nothing that is stored or in hand, there is a run, which reads what the
-- node answers, to a state in which every worker is done, the call returns the range's last height,
-- and every height of the range is stored.
pub Reach-completes :
    {n : ℕ} {j : Job} {db : Store} {s : System} (node : ℕ → HeightRows)
    → 0 < n
    → j.start ≤ j.end'
    → Honest j db
    → Reach n j db s
    → IsClean node n s
    → (t : System) × (Run node n j s t
        × ((i : ℕ) → i < n → t.pc i ≡ done)
        × (range_result t.shared ≡ finished (some j.end') t.shared.heights_ingested)
        × Upto j j.end' t.shared.store)
Reach-completes {n} {j} {s = s} node pos le honest r c =
    let e = run_to_end s (Follows-Acc n j s) c in
    let out = Reach-finished pos le honest (Reach-Run r e.run) e.over e.clean in
    (e.last, (e.run, e.over, out.0, out.1))
