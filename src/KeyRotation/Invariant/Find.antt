-- ===== src/KeyRotation/Invariant/Find.antt =====
-- What `findFirst` by an event finds, and `upsert` by an event as an update or an insert.
use twilight_core_explorer.Common.{
  ℕ, ◌≡◌, ◌≢◌, inl, inr, refl, sym, ap, subst, true, false, Option, none, some, List, [], ◌∷◌, ◌++◌,
  arith, ◌==◌, ==_iff, Bool-cases, ◌↔◌,
}
use twilight_core_explorer.Temporal.Lists.{In, Pairs, All-In}
use twilight_core_explorer.Projection.Failure.{eq_opt_nat}
use twilight_core_explorer.KeyRotation.Types.{Rotation}
use twilight_core_explorer.KeyRotation.Rows.{
  Key, has_event, find_by_event, upsert_by_event, update_by_id,
}
use twilight_core_explorer.KeyRotation.Invariant.{IsApart}

eq_opt_nat-some : (o : Option ℕ) (e : ℕ) → (eq_opt_nat o (some e) ≡ true) ↔ (o ≡ some e)
eq_opt_nat-some none e = ground arith
eq_opt_nat-some (some a) e = ground (arith, ==_iff a e)

pub find_by_event-some :
    (key : Key) (e : ℕ) (rs : List Rotation) (r : Rotation)
    → find_by_event key e rs ≡ some r
    → In r rs × (key r ≡ some e)
unfolding find_by_event
find_by_event-some key e [] r h = cc
find_by_event-some key e (s ∷ rs) r h = elim (Bool-cases (has_event key e s)) [
  | inl t ↦
      (let same : s ≡ r = first s r (rw t at h) in
        (inl same, subst (λ x. key x ≡ some e) same ((eq_opt_nat-some (key s) e).0 t)))
  | inr t ↦ (let rest = find_by_event-some key e rs r (rw t at h) in (inr rest.0, rest.1))
]
  where
    first : (s r : Rotation) → some s ≡ some r → s ≡ r
    first s r e = cc

pub find_by_event-none :
    (key : Key) (e : ℕ) (rs : List Rotation)
    → find_by_event key e rs ≡ none
    → (r : Rotation) → In r rs
    → key r ≢ some e
unfolding find_by_event
find_by_event-none key e [] h r m = absurd m
find_by_event-none key e (s ∷ rs) h r m = elim (Bool-cases (has_event key e s)) [
  | inl t ↦ (let bad : some s ≡ none = rw t at h in cc)
  | inr t ↦ (elim m [
    | inl same ↦ λ k.
        ground (arith, (eq_opt_nat-some (key s) e).1 (subst (λ x. key x ≡ some e) (sym same) k))
    | inr m' ↦ find_by_event-none key e rs (rw t at h) r m'
  ])
]

pub upsert_by_event-insert :
    (key : Key) (e : ℕ) (new : Rotation) (f : Rotation → Rotation) (rs : List Rotation)
    → find_by_event key e rs ≡ none
    → upsert_by_event key e new f rs ≡ rs ++ (new ∷ [])
unfolding find_by_event upsert_by_event
upsert_by_event-insert key e new f [] h = refl
upsert_by_event-insert key e new f (s ∷ rs) h = elim (Bool-cases (has_event key e s)) [
  | inl t ↦ (let bad : some s ≡ none = rw t at h in cc)
  | inr t ↦ rw t (ap (λ l. s ∷ l) (upsert_by_event-insert key e new f rs (rw t at h)))
]

pub upsert_by_event-update :
    (key : Key) (e : ℕ) (new : Rotation) (f : Rotation → Rotation) (rs : List Rotation)
    (r : Rotation)
    → Pairs IsApart rs
    → find_by_event key e rs ≡ some r
    → upsert_by_event key e new f rs ≡ update_by_id r.id f rs
unfolding find_by_event upsert_by_event update_by_id
upsert_by_event-update key e new f [] r p h = cc
upsert_by_event-update key e new f (s ∷ rs) r p h = elim (Bool-cases (has_event key e s)) [
  | inl t ↦
      (let same : some s ≡ some r = rw t at h in
        let ids : s.id ≡ r.id = id_of s r same in rw (t, (==_iff s.id r.id).1 ids) refl)
  | inr t ↦
      (let rest : find_by_event key e rs ≡ some r = rw t at h in
        let apart = All-In (IsApart s) r rs p.0 (find_by_event-some key e rs r rest).0 in
        rw (t, other s.id r.id apart.ids)
          (ap (λ l. s ∷ l) (upsert_by_event-update key e new f rs r p.1 rest)))
]
  where
    id_of : (s r : Rotation) → some s ≡ some r → s.id ≡ r.id
    id_of s r e = cc

    other : (a b : ℕ) → a ≢ b → (a == b) ≡ false
    other a b n = ground (arith, ==_iff a b)
