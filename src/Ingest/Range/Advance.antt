-- ===== src/Ingest/Range/Advance.antt =====
-- `advanceWatermark` of ingest-range.ts. A set of heights is a list.
use native.Mathlib.Decide.{dec_lt}
use twilight_core_explorer.Common.{
  ℕ, zero, suc, ◌≤◌, ◌<◌, ◌≡◌, refl, ◌⊎◌, ◌&&◌, Bool, true, false, not, Option, none, some, List,
  [], ◌∷◌, arith, ◌≢◌, sym, subst, ◌==◌, any, keep_if, length, Bool-cases, inl, inr,
}

-- `completedAhead.has`
abbrev pub has : ℕ → List ℕ → Bool
has k = any (λ h. h == k)

-- `completedAhead.delete`
abbrev pub delete : ℕ → List ℕ → List ℕ
delete k = keep_if (λ h. not (h == k))

-- the `while` loop: each round takes a height out of the set, so the set's length is fuel enough
unfoldable pub advance_rounds : ℕ → ℕ → List ℕ → Option ℕ → List ℕ × Option ℕ
advance_rounds zero candidate completed last = (completed, last)
advance_rounds (suc fuel) candidate completed last = elim (has candidate completed) [
  | true ↦ advance_rounds fuel (suc candidate) (delete candidate completed) (some candidate)
  | false ↦ (completed, last)
]

-- the height that the watermark waits for
abbrev pub front : ℕ → Option ℕ → ℕ
front start none = start
front start (some last) = suc last

-- `advanceWatermark`
unfoldable pub advance_watermark : ℕ → List ℕ → Option ℕ → List ℕ × Option ℕ
unfolding advance_rounds
advance_watermark start completed last =
    advance_rounds (length completed) (front start last) completed last

length-delete_le : (k : ℕ) (hs : List ℕ) → length (delete k hs) ≤ length hs
length-delete_le k [] = omega arith
length-delete_le k (x ∷ hs) = ground (arith, length-delete_le k hs)

length-delete : (k : ℕ) (hs : List ℕ) → has k hs ≡ true → length (delete k hs) < length hs
length-delete k [] h = ground arith
length-delete k (x ∷ hs) h = ground (arith, length-delete k hs, length-delete_le k hs)

has-delete : (j k : ℕ) (hs : List ℕ) → has j (delete k hs) ≡ (not (k == j) && has j hs)
has-delete j k [] = ground arith
has-delete j k (x ∷ hs) = ground (arith, has-delete j k hs)

-- What the loop does: it moves from the candidate to a height that is not in the set, over heights that
-- were, and takes those out.
pub record Advanced (candidate : ℕ) (completed : List ℕ) (last : Option ℕ) (r : List ℕ × Option ℕ)
    : Type 0 where
  pub stop : ℕ
  pub forward : candidate ≤ stop
  pub open_at : has stop r.0 ≡ false
  pub over : (k : ℕ) → candidate ≤ k → k < stop → has k completed ≡ true
  pub kept : (k : ℕ) → has k r.0 ≡ true → (has k completed ≡ true) × ((k < candidate) ⊎ (stop ≤ k))
  pub rest : (k : ℕ) → stop ≤ k → has k completed ≡ true → has k r.0 ≡ true
  pub moved : ((stop ≡ candidate) × (r.1 ≡ last)) ⊎ ((l : ℕ) × (suc l ≡ stop) × (r.1 ≡ some l))

kept_delete : (j k : ℕ) (hs : List ℕ) → has j (delete k hs) ≡ true → (has j hs ≡ true) × (k ≢ j)
kept_delete j k hs h = ground (arith, has-delete j k hs)

has-delete_other : (j k : ℕ) (hs : List ℕ) → k ≢ j → has j hs ≡ true → has j (delete k hs) ≡ true
has-delete_other j k hs n h = ground (arith, has-delete j k hs)

no_round :
    (c : ℕ) (hs : List ℕ) (last : Option ℕ) → has c hs ≡ false → Advanced c hs last (hs, last)
no_round c hs last e = record {
  stop = c;
  forward = omega arith;
  open_at = e;
  over = λ k p q. absurd (omega arith);
  kept = λ k h. (h, before_or_after k);
  rest = λ k p h. h;
  moved = inl (refl, refl);
}
  where
    before_or_after : (k : ℕ) → (k < c) ⊎ (c ≤ k)
    before_or_after k = ground arith

one_round :
    (c : ℕ) (hs : List ℕ) (last : Option ℕ) (r : List ℕ × Option ℕ)
    → has c hs ≡ true
    → Advanced (suc c) (delete c hs) (some c) r
    → Advanced c hs last r
one_round c hs last r e a = record {
  stop = a.stop;
  forward = let f = a.forward in omega arith;
  open_at = a.open_at;
  over = over;
  kept = kept;
  rest = λ k p h. a.rest k p (has-delete_other k c hs (let f = a.forward in omega arith) h);
  moved = inr (moved a.moved);
}
  where
    same : (k : ℕ) → c ≤ k → ¬ (c < k) → c ≡ k
    same k p n = omega arith

    side : (k : ℕ) → c ≢ k → (k < suc c) ⊎ (a.stop ≤ k) → (k < c) ⊎ (a.stop ≤ k)
    side k d (inl lt) = inl (omega arith)
    side k d (inr le) = inr le

    over : (k : ℕ) → c ≤ k → k < a.stop → has k hs ≡ true
    over k p q = elim (dec_lt c k) [
      | yes lt ↦ (kept_delete k c hs (a.over k (omega arith) q)).0
      | no n ↦ subst (λ x. has x hs ≡ true) (same k p n) e
    ]

    kept : (k : ℕ) → has k r.0 ≡ true → (has k hs ≡ true) × ((k < c) ⊎ (a.stop ≤ k))
    kept k h =
        let (old, where') = a.kept k h in
        let (there, apart) = kept_delete k c hs old in (there, side k apart where')

    moved :
        ((a.stop ≡ suc c) × (r.1 ≡ some c)) ⊎ ((l : ℕ) × (suc l ≡ a.stop) × (r.1 ≡ some l))
        → (l : ℕ) × (suc l ≡ a.stop) × (r.1 ≡ some l)
    moved (inl (p, q)) = (c, sym p, q)
    moved (inr m) = m

advance_rounds_lem :
    (fuel c : ℕ) (hs : List ℕ) (last : Option ℕ)
    → length hs ≤ fuel
    → Advanced c hs last (advance_rounds fuel c hs last)
unfolding advance_rounds
advance_rounds_lem zero c [] last le = no_round c [] last refl
advance_rounds_lem zero c (h ∷ hs) last le = absurd (omega arith)
advance_rounds_lem (suc fuel) c hs last le = elim (Bool-cases (has c hs)) [
  | inl e ↦
      rw (e, advance_rounds)
        (one_round c hs last _ e (
          advance_rounds_lem fuel (suc c) (delete c hs) (some c)
            (let lt = length-delete c hs e in omega arith)))
  | inr e ↦ rw (e, advance_rounds) (no_round c hs last e)
]

-- The loop ends with the fuel that it is given, at the first height from the front on that is not in the
-- set.
pub advance_watermark_lem :
    (start : ℕ) (hs : List ℕ) (last : Option ℕ)
    → Advanced (front start last) hs last (advance_watermark start hs last)
unfolding advance_watermark
advance_watermark_lem start hs last =
    advance_rounds_lem (length hs) (front start last) hs last (omega arith)
