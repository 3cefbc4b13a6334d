-- ===== src/Ingest/Range/Safety.antt =====
-- What holds of the watermark in every state that `ingestRange` can reach, and at its end.
use native.Mathlib.Decide.{dec_lt}
use twilight_core_explorer.Common.{
  ℕ, suc, ◌≤◌, ◌<◌, ◌≡◌, ◌≢◌, ◌⊎◌, inl, inr, true, false, Option, none, some, arith, refl, ap,
  subst, List,
}
use twilight_core_explorer.Ingest.Store.{Store}
use twilight_core_explorer.Ingest.Range.Advance.{has, front}
use twilight_core_explorer.Ingest.Range.Worker.{Job, Pc, done}
use twilight_core_explorer.Ingest.Range.System.{System, Reach, finished, range_result}
use twilight_core_explorer.Ingest.Range.Invariant.{Reach-Inv}
use twilight_core_explorer.Ingest.Range.Invariant.Defs.{
  Upto, front_of, Knows, Owns, behind, waiting, owned, gone_wrong, Honest, Inv,
}

-- In every state that workers reach in any order of steps and with any faults, the cursor in the
-- database is there, and every height of the range up to it is stored: the watermark never passes a
-- hole. This wants a cursor before the range that is honest too.
pub Reach-Honest :
    {n : ℕ} {j : Job} {db : Store} {s : System}
    → j.start ≤ suc j.end'
    → Honest j db
    → Reach n j db s
    → Honest j s.shared.store
Reach-Honest le honest r = (Reach-Inv le honest r).settled.honest

no_owner : (p : Pc) (k : ℕ) → p ≡ done → Owns p k → ⊥
no_owner p k e o = subst (λ x. Owns x k) e o

all_past :
    (n : ℕ) (j : Job) (s : System)
    → Inv n j s
    → ((i : ℕ) → i < n → s.pc i ≡ done)
    → s.shared.first_error ≡ none
    → (k : ℕ) → j.start ≤ k
    → k < s.shared.next
    → (k < front_of j s.shared) ⊎ (has k s.shared.completed_ahead ≡ true)
all_past n j s v finish clean k a b = elim (v.accounted k a b) [
  | behind p ↦ inl p
  | waiting e ↦ inr e
  | owned i lt o ↦ absurd (no_owner (s.pc i) k (finish i lt) o)
  | gone_wrong e ↦ absurd (e clean)
]

exhausted :
    (n : ℕ) (j : Job) (s : System)
    → 0 < n
    → Inv n j s
    → ((i : ℕ) → i < n → s.pc i ≡ done)
    → s.shared.first_error ≡ none
    → s.shared.next ≡ suc j.end'
exhausted n j s pos v finish clean =
    elim (subst (Knows j s.shared) (finish 0 pos) (v.knows 0 pos)) [
      | inl e ↦ absurd (e clean)
      | inr lt ↦ (let high = v.settled.next_high in omega arith)
    ]

not-both : (n : ℕ) (hs : List ℕ) → has n hs ≡ false → has n hs ≢ true
not-both n hs a b = ground arith

front_at_end :
    (n : ℕ) (j : Job) (s : System)
    → Inv n j s
    → ((i : ℕ) → i < n → s.pc i ≡ done)
    → s.shared.first_error ≡ none
    → s.shared.next ≤ front_of j s.shared
front_at_end n j s v finish clean = elim (dec_lt (front_of j s.shared) s.shared.next) [
  | no p ↦ omega arith
  | yes p ↦ elim (all_past n j s v finish clean (front_of j s.shared) v.settled.front_low p) [
    | inl lt ↦ absurd (omega arith)
    | inr e ↦
        absurd (not-both (front_of j s.shared) s.shared.completed_ahead v.settled.front_open e)
  ]
]

last_of_front :
    (start end' : ℕ) (last : Option ℕ)
    → start ≤ end'
    → front start last ≡ suc end'
    → last ≡ some end'
last_of_front start end' none le e = absurd (omega arith)
last_of_front start end' (some l) le e = ap some (let e' : suc l ≡ suc end' = e in omega arith)

-- When every worker is done and no height has failed, the range has been ingested whole: the call
-- returns the last height of the range as its watermark, and every height of the range is stored.
pub Reach-finished :
    {n : ℕ} {j : Job} {db : Store} {s : System}
    → 0 < n
    → j.start ≤ j.end'
    → Honest j db
    → Reach n j db s
    → ((i : ℕ) → i < n → s.pc i ≡ done)
    → s.shared.first_error ≡ none
    → (range_result s.shared ≡ finished (some j.end') s.shared.heights_ingested)
      × Upto j j.end' s.shared.store
unfolding range_result
Reach-finished {n} {j} {s} pos le honest r finish clean =
    let v = Reach-Inv {n = n} {j = j} (omega arith) honest r in
    let at_end = exhausted n j s pos v finish clean in
    let past = front_at_end n j s v finish clean in
    let high = v.settled.front_high in
    let same : front_of j s.shared ≡ suc j.end' = omega arith in
    let last = last_of_front j.start j.end' s.shared.last_contiguous le same in
    (rw (clean, last) refl, λ k a b. v.settled.below k a (omega arith))
