-- ===== src/KeyRotation/Invariant.antt =====
-- When the table of rotations is well formed, and how it may change.
pub mod Update
pub mod Find
pub mod Writers
pub mod Marks
pub mod Steps
pub mod Cancels
pub mod Heights
use twilight_core_explorer.Common.{
  ℕ, ◌+◌, ◌<◌, ◌≡◌, ◌≢◌, ◌⊎◌, inl, inr, refl, sym, ap, ◌∙◌, subst, Bool, true, false, Option, none,
  some, is_some, List, [], ◌∷◌, ◌++◌, All, arith,
}
use twilight_core_explorer.Temporal.Lists.{In, Pairs, All-In}
use twilight_core_explorer.KeyRotation.Types.{
  Rotation, RotationStatus, requested, applied, immediate_applied, cancelled, RotationDb,
}

-- what has become of a rotation
pub data Phase : Type 0 where
  asked taken dropped : Phase

abbrev pub phase : RotationStatus → Phase
phase requested = asked
phase applied = taken
phase immediate_applied = taken
phase cancelled = dropped

-- the status against the events and heights that a row names
abbrev pub Agrees : Phase → (by_applied by_cancelled applied_at cancelled_at : Option ℕ) → Type 0
Agrees asked a c at_a at_c = (a ≡ none) × (c ≡ none)
Agrees taken a c at_a at_c = (is_some a ≡ true) × (is_some at_a ≡ true) × (c ≡ none)
Agrees dropped a c at_a at_c = (a ≡ none) × (is_some c ≡ true) × (is_some at_c ≡ true)

abbrev pub RowAgrees : Rotation → Type 0
RowAgrees r =
    Agrees (phase r.status) r.source_applied_event_id r.source_cancelled_event_id r.applied_height
      r.cancelled_height

abbrev pub Differ : Option ℕ → Option ℕ → Type 0
Differ a b = (e : ℕ) → a ≡ some e → b ≢ some e

-- Two rows have their own ids, and no event in common in any of the three columns.
pub record IsApart (r s : Rotation) : Type 0 where
  pub ids : r.id ≢ s.id
  pub requests : Differ r.source_request_event_id s.source_request_event_id
  pub applications : Differ r.source_applied_event_id s.source_applied_event_id
  pub cancellations : Differ r.source_cancelled_event_id s.source_cancelled_event_id

pub IsApart-sym : {r s : Rotation} → IsApart r s → IsApart s r
IsApart-sym a = record {
  ids = λ e. a.ids (sym e);
  requests = λ e p q. a.requests e q p;
  applications = λ e p q. a.applications e q p;
  cancellations = λ e p q. a.cancellations e q p;
}

-- The table's rows agree with their status, have ids that the sequence has given, and are apart.
pub record IsSound (n : ℕ) (rs : List Rotation) : Type 0 where
  pub rows : All (λ r. RowAgrees r × (r.id < n)) rs
  pub apart : Pairs IsApart rs

-- What may become of a row: it keeps its id and its events, and its phase if that is not `asked`.
pub record Forward (r s : Rotation) : Type 0 where
  pub id : s.id ≡ r.id
  pub request : s.source_request_event_id ≡ r.source_request_event_id
  pub onward : (phase s.status ≡ phase r.status) ⊎ (phase r.status ≡ asked)
  pub application :
      (e : ℕ) → r.source_applied_event_id ≡ some e → s.source_applied_event_id ≡ some e
  pub cancellation :
      (e : ℕ) → r.source_cancelled_event_id ≡ some e → s.source_cancelled_event_id ≡ some e

pub Forward-refl : (r : Rotation) → Forward r r
Forward-refl r = record {
  id = refl;
  request = refl;
  onward = inl refl;
  application = λ e p. p;
  cancellation = λ e p. p;
}

onward_trans :
    (p q r : Phase) → (q ≡ p) ⊎ (p ≡ asked) → (r ≡ q) ⊎ (q ≡ asked) → (r ≡ p) ⊎ (p ≡ asked)
onward_trans p q r (inr e) b = inr e
onward_trans p q r (inl e) (inl f) = inl (f ∙ e)
onward_trans p q r (inl e) (inr f) = inr (sym e ∙ f)

pub Forward-trans : {r s t : Rotation} → Forward r s → Forward s t → Forward r t
Forward-trans {r} {s} {t} a b = record {
  id = b.id ∙ a.id;
  request = b.request ∙ a.request;
  onward = onward_trans (phase r.status) (phase s.status) (phase t.status) a.onward b.onward;
  application = λ e p. b.application e (a.application e p);
  cancellation = λ e p. b.cancellation e (a.cancellation e p);
}

-- Row by row, in place; new rows come at the end.
abbrev pub Grown : List Rotation → List Rotation → Type 0
Grown [] ss = Unit {0}
Grown (r ∷ rs) [] = ⊥
Grown (r ∷ rs) (s ∷ ss) = Forward r s × Grown rs ss

pub Grown-refl : (rs : List Rotation) → Grown rs rs
Grown-refl [] = tt
Grown-refl (r ∷ rs) = (Forward-refl r, Grown-refl rs)

pub Grown-trans : (rs ss ts : List Rotation) → Grown rs ss → Grown ss ts → Grown rs ts
Grown-trans [] ss ts a b = tt
Grown-trans (r ∷ rs) [] ts a b = absurd a
Grown-trans (r ∷ rs) (s ∷ ss) [] a b = absurd b
Grown-trans (r ∷ rs) (s ∷ ss) (t ∷ ts) a b = (Forward-trans a.0 b.0, Grown-trans rs ss ts a.1 b.1)

pub Grown-append : (rs ss : List Rotation) → Grown rs (rs ++ ss)
Grown-append [] ss = tt
Grown-append (r ∷ rs) ss = (Forward-refl r, Grown-append rs ss)

-- From a sound table a sound table comes, in which every row has gone forward.
abbrev pub Goes : RotationDb → RotationDb → Type 0
Goes db to =
    IsSound db.next_id db.rotations
    → IsSound to.next_id to.rotations × Grown db.rotations to.rotations

pub Goes-refl : (db : RotationDb) → Goes db db
Goes-refl db v = (v, Grown-refl db.rotations)

pub Goes-trans : (a b c : RotationDb) → Goes a b → Goes b c → Goes a c
Goes-trans a b c p q v =
    let (w, g) = p v in let (x, h) = q w in (x, Grown-trans a.rotations b.rotations c.rotations g h)

pair_of :
    (r s t : Rotation) (rs : List Rotation) → All (IsApart t) rs → t ≡ r → In s rs → IsApart r s
pair_of r s t rs a e m = subst (λ x. IsApart x s) e (All-In (IsApart t) s rs a m)

-- Two rows of a table are one, or apart.
pub same-or_IsApart :
    (rs : List Rotation) (r s : Rotation)
    → Pairs IsApart rs
    → In r rs
    → In s rs
    → (r ≡ s) ⊎ IsApart r s
same-or_IsApart [] r s p m k = absurd m
same-or_IsApart (t ∷ rs) r s p (inl e) (inl f) = inl (sym e ∙ f)
same-or_IsApart (t ∷ rs) r s p (inl e) (inr k) = inr (pair_of r s t rs p.0 e k)
same-or_IsApart (t ∷ rs) r s p (inr m) (inl f) = inr (IsApart-sym (pair_of s r t rs p.0 f m))
same-or_IsApart (t ∷ rs) r s p (inr m) (inr k) = same-or_IsApart rs r s p.1 m k

pub same_id :
    (rs : List Rotation) (r s : Rotation)
    → Pairs IsApart rs
    → In r rs
    → In s rs
    → r.id ≡ s.id
    → r ≡ s
same_id rs r s p m k e = elim (same-or_IsApart rs r s p m k) [
  | inl same ↦ same
  | inr a ↦ absurd (a.ids e)
]
