-- ===== src/Ingest/Range/Termination.antt =====
-- `ingestRange`: each step of a worker makes a measure over all of them smaller.
use mathlib.Core.WellFounded.{Acc}
use twilight_core_explorer.Common.{
  ℕ, zero, suc, ◌+◌, ◌*◌, ◌-◌, ◌≤◌, ◌<◌, ◌≡◌, inl, inr, Option, none, some, arith, refl, Bool-cases,
  is_some, ltb, ◌==◌, ==_iff, List,
}
use twilight_core_explorer.Ingest.Store.{HeightRows}
use twilight_core_explorer.Ingest.Height.{Decision, write, halt_mismatch, decide}
use twilight_core_explorer.Ingest.Range.Worker.{
  Job, Shared, Pc, mismatch, other, head, fetching, saving, halting, failing, saved, stamping,
  stamped, done, HashEntry, at_head, on_read, after_advance, same_watermark, resume, stamp_cursor,
  forget_hashes, catch, Move, turn, read_rows, read_fails, save, save_fails, halt, halt_fails,
  return, stamp, stamp_fails, forget, fail,
}
use twilight_core_explorer.Ingest.Range.System.{System, update, Step, pick}

-- how many steps a worker can still take with the height that it has, and one to stop
abbrev weight : Pc → ℕ
weight head = 1
weight (fetching h) = 6
weight (saving h rows) = 5
weight (saved h hash) = 4
weight (stamping h l hash) = 3
weight (stamped h) = 2
weight (halting h mismatch) = 4
weight (halting h (other m)) = 3
weight (failing h m) = 1
weight done = 0

abbrev left : Job → Shared → ℕ
left j s = 6 * (suc j.end' - s.next)

abbrev cost : Job → Shared → Pc → ℕ
cost j s p = left j s + weight p

after_advance-weight :
    (h : ℕ) (before o : Option ℕ) (hashes : List HashEntry)
    → weight (after_advance h before o hashes) ≤ 3
after_advance-weight h before none hashes = omega arith
after_advance-weight h before (some l) hashes = elim (Bool-cases (same_watermark before (some l))) [
  | inl e ↦ rw e (omega arith)
  | inr e ↦ rw e (omega arith)
]

on_read-weight : (h : ℕ) (rows : HeightRows) (d : Decision) → weight (on_read h rows d) ≤ 5
on_read-weight h rows write = omega arith
on_read-weight h rows (halt_mismatch stored fetched) = omega arith

at_head-cost : (j : Job) (s : Shared) → cost j (at_head j s).0 (at_head j s).1 < cost j s head
unfolding at_head
at_head-cost j s = elim (Bool-cases (is_some s.first_error)) [
  | inl e ↦ rw e (omega arith)
  | inr e ↦ rw e (elim (Bool-cases (ltb j.end' s.next)) [
    | inl past ↦ rw past (omega arith)
    | inr more ↦ rw more (let le : s.next ≤ j.end' = ground arith in omega arith)
  ])
]

Move-cost : {j : Job} {s t : Shared} {p q : Pc} → Move j s p t q → cost j t q < cost j s p
unfolding resume stamp_cursor forget_hashes catch
Move-cost {j} {s} turn = at_head-cost j s
Move-cost {j} {s} (read_rows h rows) = omega (arith, on_read-weight h rows (decide h rows s.store))
Move-cost (read_fails h m) = omega arith
Move-cost (save h rows) = omega arith
Move-cost (save_fails h rows m) = omega arith
Move-cost (halt h mismatch) = omega arith
Move-cost (halt h (other m)) = omega arith
Move-cost (halt_fails h mismatch m) = omega arith
Move-cost (halt_fails h (other f) m) = omega arith
Move-cost {j} {s} (return h hash) = omega (arith, after_advance-weight h s.last_contiguous _ _)
Move-cost (stamp h l hash) = omega arith
Move-cost (stamp_fails h l hash m) = omega arith
Move-cost (forget h) = omega arith
Move-cost (fail h m) = omega arith

-- the workers' weights together
weights : ℕ → (ℕ → Pc) → ℕ
weights zero pc = 0
weights (suc n) pc = weights n pc + weight (pc n)

weights_outside :
    (n i : ℕ) (pc : ℕ → Pc) (p : Pc) → n ≤ i → weights n (update pc i p) ≡ weights n pc
unfolding weights
weights_outside zero i pc p le = refl
weights_outside (suc n) i pc p le = ground (arith, weights_outside n i pc p)

weights-update :
    (n i : ℕ) (pc : ℕ → Pc) (p : Pc)
    → i < n
    → weights n (update pc i p) + weight (pc i) ≡ weights n pc + weight p
unfolding weights
weights-update zero i pc p lt = absurd (omega arith)
weights-update (suc n) i pc p lt = elim (Bool-cases (n == i)) [
  | inl e ↦
      (let same : n ≡ i = (==_iff n i).0 e in
        rw (e, weights_outside n i pc p (omega arith), same) (omega arith))
  | inr e ↦
      (let below : i < n = ground arith in rw e (omega (arith, weights-update n i pc p below)))
]

abbrev measure : ℕ → Job → System → ℕ
measure n j s = left j s.shared + weights n s.pc

Step-measure : {n : ℕ} {j : Job} {s t : System} → Step n j s t → measure n j t < measure n j s
Step-measure {n} {j} {s} (pick i {sh} {p} lt mv) =
    omega (arith, Move-cost mv, weights-update n i s.pc p lt)

-- `t` comes after `s` in one step
abbrev pub Follows : ℕ → Job → System → System → Type 0
Follows n j t s = Step n j s t

Acc-measure : (k : ℕ) (n : ℕ) (j : Job) (s : System) → measure n j s < k → Acc (Follows n j) s
Acc-measure zero n j s lt = absurd (omega arith)
Acc-measure (suc k) n j s lt =
    Acc.intro s (λ t st. Acc-measure k n j t (let less = Step-measure st in omega arith))

-- Whatever the order of the steps and whatever fails, every run of the range is finite.
pub Follows-Acc : (n : ℕ) (j : Job) (s : System) → Acc (Follows n j) s
Follows-Acc n j s = Acc-measure (suc (measure n j s)) n j s (omega arith)
