-- ===== src/Ingest/Range/Invariant/Resume.antt =====
-- The step of `ingestRange` that moves the watermark.
use native.Mathlib.Decide.{dec_lt}
use twilight_core_explorer.Common.{
  ℕ, ◌≤◌, ◌<◌, ◌≡◌, ◌⊎◌, inl, inr, true, Option, none, some, String, arith, refl, sym, ap, ◌∙◌,
  subst, List, ◌∷◌, Bool-cases,
}
use twilight_core_explorer.Ingest.Store.Laws.{Indexed}
use twilight_core_explorer.Ingest.Range.Advance.{has, front, Advanced}
use twilight_core_explorer.Ingest.Range.Worker.{
  Job, Shared, saved, HashEntry, after_advance, same_watermark, resumed,
}
use twilight_core_explorer.Ingest.Range.Invariant.Defs.{Upto, Claimed, front_of, Knows, Settled}
use twilight_core_explorer.Ingest.Range.Invariant.Progress.{Moved, Handed, done_with, passed}

new_front :
    (start : ℕ) (hs : List ℕ) (last : Option ℕ) (r : List ℕ × Option ℕ)
    (a : Advanced (front start last) hs last r)
    → front start r.1 ≡ a.stop
new_front start hs last r a = elim a.moved [
  | inl (same, e) ↦ ap (front start) e ∙ sym same
  | inr (l, same, e) ↦ ap (front start) e ∙ same
]

after_advance-Knows :
    (j : Job) (s : Shared) (h : ℕ) (before o : Option ℕ) (hashes : List HashEntry)
    → ((l : ℕ) → o ≡ some l → Upto j l s.store)
    → Knows j s (after_advance h before o hashes)
after_advance-Knows j s h before none hashes u = tt
after_advance-Knows j s h before (some l) hashes u =
    elim (Bool-cases (same_watermark before (some l))) [ inl e ↦ rw e tt | inr e ↦ rw e (u l refl) ]

has-cons : (k h : ℕ) (hs : List ℕ) → has k (h ∷ hs) ≡ true → (h ≡ k) ⊎ (has k hs ≡ true)
has-cons k h hs e = ground arith

cons-has : (k h : ℕ) (hs : List ℕ) → (h ≡ k) ⊎ (has k hs ≡ true) → has k (h ∷ hs) ≡ true
cons-has k h hs (inl e) = ground arith
cons-has k h hs (inr e) = ground arith

module _ (j : Job) (h : ℕ) (hash : Option String) (s : Shared) (c : Settled j s)
    (mine : Claimed j s h) (stored : Indexed h s.store) (r : List ℕ × Option ℕ)
    (a : Advanced (front_of j s) (h ∷ s.completed_ahead) s.last_contiguous r)
    (hashes : List HashEntry) where
  abbrev pub after : Shared
  after = (resumed h s.last_contiguous hashes s r).0

  front_after : front_of j after ≡ a.stop
  front_after = new_front j.start (h ∷ s.completed_ahead) s.last_contiguous r a

  with_mine : (k : ℕ) → has k (h ∷ s.completed_ahead) ≡ true → Claimed j s k × Indexed k s.store
  with_mine k e = elim (has-cons k h s.completed_ahead e) [
    | inl same ↦ subst (λ x. Claimed j s x × Indexed x s.store) same (mine, stored)
    | inr old ↦ c.ahead k old
  ]

  below_after : (k : ℕ) → j.start ≤ k → k < a.stop → Indexed k s.store
  below_after k low lt = elim (dec_lt k (front_of j s)) [
    | yes p ↦ c.below k low p
    | no p ↦ (with_mine k (a.over k (omega arith) lt)).1
  ]

  stop-le-next : a.stop ≤ s.next
  stop-le-next = elim a.moved [
    | inl (same, e) ↦ let f = c.front_high in omega arith
    | inr (l, same, e) ↦ elim (dec_lt l (front_of j s)) [
      | yes p ↦ let f = c.front_high in omega arith
      | no p ↦ let q = (with_mine l (a.over l (omega arith) (omega arith))).0.1 in omega arith
    ]
  ]

  resumed-Settled : Settled j after
  resumed-Settled = record {
    next_low = c.next_low;
    next_high = c.next_high;
    front_low = rw front_after (let a' = c.front_low in let b = a.forward in omega arith);
    front_high = rw front_after stop-le-next;
    front_open = rw front_after a.open_at;
    below = λ k low lt. below_after k low (rw front_after at lt);
    ahead = λ k e. with_mine k (a.kept k e).0;
    honest = c.honest;
  }

  elsewhere :
      (k : ℕ) → has k (h ∷ s.completed_ahead) ≡ true → (has k r.0 ≡ true) ⊎ (k < front_of j after)
  elsewhere k e = elim (dec_lt k a.stop) [
    | yes p ↦ inr (rw front_after p)
    | no p ↦ inl (a.rest k (omega arith) e)
  ]

  hand_over :
      (k : ℕ)
      → (has k r.0 ≡ true) ⊎ (k < front_of j after)
      → Handed j after (resumed h s.last_contiguous hashes s r).1 k
  hand_over k (inl e) = done_with e
  hand_over k (inr lt) = passed lt

  pub resumed-Moved : Moved j s (saved h hash) after (resumed h s.last_contiguous hashes s r).1
  resumed-Moved = record {
    grows = record {
      next_up = omega arith;
      front_up = rw front_after a.forward;
      error_up = λ e. e;
      indexed = λ k i. i;
      waiting = λ k e. elsewhere k (cons-has k h s.completed_ahead (inr e));
    };
    settled = resumed-Settled;
    knows = after_advance-Knows j after h s.last_contiguous r.1 hashes (λ l e k low le.
        below_after k low (let f = front_after in let q = ap (front j.start) e in omega arith));
    handed = λ k e. hand_over k (elsewhere k (cons-has k h s.completed_ahead (inl e)));
    taken = λ k x y. absurd (omega arith);
  }
