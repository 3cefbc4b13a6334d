-- ===== src/Ingest/Range/Invariant.antt =====
-- What holds between two steps of `ingestRange`.
pub mod Defs
mod Progress
mod Resume
mod Moves
use native.Mathlib.Decide.{dec_lt}
use twilight_core_explorer.Common.{
  ℕ, suc, ◌≤◌, ◌<◌, ◌≡◌, ◌≢◌, ◌⊎◌, inl, inr, true, false, Option, none, some, String, arith, refl,
  Bool-cases, ◌==◌, ==_iff, if◌then◌else◌, subst, sym,
}
use twilight_core_explorer.Ingest.Store.{Store}
use twilight_core_explorer.Ingest.Store.Laws.{Indexed}
use twilight_core_explorer.Ingest.Range.Advance.{has, front}
use twilight_core_explorer.Ingest.Range.Worker.{
  Job, Shared, Pc, head, fetching, saving, halting, failing, saved, stamping, stamped, done, Move,
}
use twilight_core_explorer.Ingest.Range.System.{
  System, update, Step, pick, initial, Reach, begin, next,
}
use twilight_core_explorer.Ingest.Range.Invariant.Defs.{
  Upto, Claimed, front_of, Knows, Owns, Accounted, behind, waiting, owned, gone_wrong, Honest,
  Settled, Inv,
}
use twilight_core_explorer.Ingest.Range.Invariant.Progress.{
  Grows, Handed, still, done_with, passed, failed_now, Moved,
}
use twilight_core_explorer.Ingest.Range.Invariant.Moves.{Move-Moved}

Claimed-Grows : (j : Job) (s t : Shared) (h : ℕ) → Grows j s t → Claimed j s h → Claimed j t h
Claimed-Grows j s t h g (a, b) = (a, let up = g.next_up in omega arith)

Knows-Grows : (j : Job) (s t : Shared) (p : Pc) → Grows j s t → Knows j s p → Knows j t p
Knows-Grows j s t head g w = tt
Knows-Grows j s t (fetching h) g w = Claimed-Grows j s t h g w
Knows-Grows j s t (saving h rows) g w = Claimed-Grows j s t h g w
Knows-Grows j s t (halting h f) g w = Claimed-Grows j s t h g w
Knows-Grows j s t (failing h m) g w = tt
Knows-Grows j s t (saved h hash) g (a, b) = (Claimed-Grows j s t h g a, g.indexed h b)
Knows-Grows j s t (stamping h l hash) g w = λ k a b. g.indexed k (w k a b)
Knows-Grows j s t (stamped h) g w = tt
Knows-Grows j s t done g (inl e) = inl (g.error_up e)
Knows-Grows j s t done g (inr lt) = inr (let up = g.next_up in omega arith)

module _ (n : ℕ) (j : Job) (pc : ℕ → Pc) (i : ℕ) (lt : i < n) (s t : Shared) (q : Pc)
    (m : Moved j s (pc i) t q) where
  Knows-after : ((k : ℕ) → k < n → Knows j s (pc k)) → (k : ℕ) → k < n → Knows j t (update pc i q k)
  Knows-after w k below = elim (Bool-cases (k == i)) [
    | inl e ↦ rw e m.knows
    | inr e ↦ rw e (Knows-Grows j s t (pc k) m.grows (w k below))
  ]

  self : update pc i q i ≡ q
  self = rw ((==_iff i i).1 refl) refl

  from_Handed : (k : ℕ) → Handed j t q k → Accounted n j t (update pc i q) k
  from_Handed k (still o) = owned i lt (rw self o)
  from_Handed k (done_with e) = waiting e
  from_Handed k (passed p) = behind p
  from_Handed k (failed_now e) = gone_wrong e

  elsewhere :
      (k : ℕ)
      → (has k t.completed_ahead ≡ true) ⊎ (k < front_of j t)
      → Accounted n j t (update pc i q) k
  elsewhere k (inl e) = waiting e
  elsewhere k (inr p) = behind p

  Accounted-after : (k : ℕ) → Accounted n j s pc k → Accounted n j t (update pc i q) k
  Accounted-after k (behind p) = behind (let up = m.grows.front_up in omega arith)
  Accounted-after k (waiting e) = elsewhere k (m.grows.waiting k e)
  Accounted-after k (gone_wrong e) = gone_wrong (m.grows.error_up e)
  Accounted-after k (owned i' below o) = elim (Bool-cases (i' == i)) [
    | inl e ↦ from_Handed k (m.handed k (subst (λ x. Owns (pc x) k) ((==_iff i' i).0 e) o))
    | inr e ↦ owned i' below (rw e o)
  ]

  Accounted-new : (k : ℕ) → s.next ≤ k → k < t.next → Accounted n j t (update pc i q) k
  Accounted-new k a b = owned i lt (rw self (m.taken k a b))

-- Every step keeps the invariant.
pub Step-Inv : {n : ℕ} {j : Job} {s t : System} → Step n j s t → Inv n j s → Inv n j t
Step-Inv {n} {j} {s} (pick i {sh} {p} lt mv) v =
    let m = Move-Moved mv v.settled (v.knows i lt) in
    record {
      settled = m.settled;
      knows = Knows-after n j s.pc i lt s.shared sh p m v.knows;
      accounted = λ k a b. elim (dec_lt k s.shared.next) [
        | yes old ↦ Accounted-after n j s.pc i lt s.shared sh p m k (v.accounted k a old)
        | no new ↦ Accounted-new n j s.pc i lt s.shared sh p m k (omega arith) b
      ];
    }

pub initial-Inv :
    (n : ℕ) (j : Job) (db : Store) → j.start ≤ suc j.end' → Honest j db → Inv n j (initial j db)
initial-Inv n j db le honest = record {
  settled = record {
    next_low = omega arith;
    next_high = le;
    front_low = omega arith;
    front_high = omega arith;
    front_open = refl;
    below = λ k a b. absurd (omega arith);
    ahead = λ k e. absurd (ground arith);
    honest = honest;
  };
  knows = λ k lt. tt;
  accounted = λ k a b. absurd (omega arith);
}

pub Reach-Inv :
    {n : ℕ} {j : Job} {db : Store} {s : System}
    → j.start ≤ suc j.end'
    → Honest j db
    → Reach n j db s
    → Inv n j s
Reach-Inv {n} {j} {db} le honest begin = initial-Inv n j db le honest
Reach-Inv le honest (next r st) = Step-Inv st (Reach-Inv le honest r)
