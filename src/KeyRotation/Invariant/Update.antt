-- ===== src/KeyRotation/Invariant/Update.antt =====
-- The three ways in which a row is written, on a sound table.
use twilight_core_explorer.Common.{
  ℕ, ◌+◌, ◌<◌, ◌≡◌, inl, inr, refl, sym, subst, List, [], ◌∷◌, ◌++◌, All, All-append, arith, ◌==◌,
  ==_iff, Bool-cases,
}
use twilight_core_explorer.Temporal.Lists.{In, Pairs, All-In, Pairs-append}
use twilight_core_explorer.KeyRotation.Types.{Rotation}
use twilight_core_explorer.KeyRotation.Rows.{update_by_id}
use twilight_core_explorer.KeyRotation.Invariant.{
  RowAgrees, IsApart, IsApart-sym, IsSound, Forward, Forward-refl, Grown, Grown-refl, Grown-append,
}

-- Every row of a list, from a fact on its members.
pub All-members :
    (P : Rotation → Type 0) (rs : List Rotation) → ((r : Rotation) → In r rs → P r) → All P rs
All-members P [] h = tt
All-members P (r ∷ rs) h = (h r (inl refl), All-members P rs (λ s m. h s (inr m)))

-- a write to the row `r`
pub record Writes (f : Rotation → Rotation) (r : Rotation) : Type 0 where
  pub agrees : RowAgrees r → RowAgrees (f r)
  pub forward : Forward r (f r)

-- the written row stays apart from the row `s`
abbrev pub StaysApart : (Rotation → Rotation) → Rotation → Rotation → Type 0
StaysApart f r s = IsApart r s → IsApart (f r) s

IsApart-from_written :
    (f : Rotation → Rotation) (r s : Rotation) → IsApart s r → StaysApart f r s → IsApart s (f r)
IsApart-from_written f r s a h = IsApart-sym (h (IsApart-sym a))

All-update_by_id :
    (P : Rotation → Type 0) (id : ℕ) (f : Rotation → Rotation) (rs : List Rotation)
    → ((r : Rotation) → In r rs → r.id ≡ id → P r → P (f r))
    → All P rs
    → All P (update_by_id id f rs)
unfolding update_by_id
All-update_by_id P id f [] h a = tt
All-update_by_id P id f (r ∷ rs) h a = elim (Bool-cases (r.id == id)) [
  | inl e ↦ rw e (h r (inl refl) ((==_iff r.id id).0 e) a.0, a.1)
  | inr e ↦ rw e (a.0, All-update_by_id P id f rs (λ s m. h s (inr m)) a.1)
]

Pairs-update_by_id :
    (id : ℕ) (f : Rotation → Rotation) (rs : List Rotation)
    → ((r s : Rotation) → In r rs → In s rs → r.id ≡ id → StaysApart f r s)
    → Pairs IsApart rs
    → Pairs IsApart (update_by_id id f rs)
unfolding update_by_id
Pairs-update_by_id id f [] h p = tt
Pairs-update_by_id id f (r ∷ rs) h p = elim (Bool-cases (r.id == id)) [
  | inl e ↦ rw e (
    All-members (IsApart (f r)) rs
        (λ s m. h r s (inl refl) (inr m) ((==_iff r.id id).0 e) (All-In (IsApart r) s rs p.0 m)),
    p.1,
  )
  | inr e ↦ rw e (
    All-update_by_id (IsApart r) id f rs
        (λ s m same a. IsApart-from_written f s r a (h s r (inr m) (inl refl) same)) p.0,
    Pairs-update_by_id id f rs (λ s t m k. h s t (inr m) (inr k)) p.1,
  )
]

Grown-update_by_id :
    (id : ℕ) (f : Rotation → Rotation) (rs : List Rotation)
    → ((r : Rotation) → In r rs → r.id ≡ id → Forward r (f r))
    → Grown rs (update_by_id id f rs)
unfolding update_by_id
Grown-update_by_id id f [] h = tt
Grown-update_by_id id f (r ∷ rs) h = elim (Bool-cases (r.id == id)) [
  | inl e ↦ rw e (h r (inl refl) ((==_iff r.id id).0 e), Grown-refl rs)
  | inr e ↦ rw e (Forward-refl r, Grown-update_by_id id f rs (λ s m. h s (inr m)))
]

pub update_by_id-IsSound :
    (n id : ℕ) (f : Rotation → Rotation) (rs : List Rotation)
    → ((r : Rotation) → In r rs → r.id ≡ id → Writes f r)
    → ((r s : Rotation) → In r rs → In s rs → r.id ≡ id → StaysApart f r s)
    → IsSound n rs
    → IsSound n (update_by_id id f rs) × Grown rs (update_by_id id f rs)
update_by_id-IsSound n id f rs w h v = (
  record {
    rows =
        All-update_by_id (λ r. RowAgrees r × (r.id < n)) id f rs
          (λ r m e a. ((w r m e).agrees a.0, subst (λ k. k < n) (sym ((w r m e).forward.id)) a.1))
          v.rows;
    apart = Pairs-update_by_id id f rs h v.apart;
  },
  Grown-update_by_id id f rs (λ r m e. (w r m e).forward),
)

widen : (n : ℕ) (r : Rotation) → RowAgrees r × (r.id < n) → RowAgrees r × (r.id < n + 1)
widen n r (a, lt) = (a, omega arith)

-- the sequence may skip an id
pub IsSound-widen : (n : ℕ) (rs : List Rotation) → IsSound n rs → IsSound (n + 1) rs
IsSound-widen n rs v = record {
  rows =
      All-members (λ r. RowAgrees r × (r.id < n + 1)) rs
        (λ r m. widen n r (All-In (λ r. RowAgrees r × (r.id < n)) r rs v.rows m));
  apart = v.apart;
}

-- a new row at the end
pub append-IsSound :
    (n : ℕ) (new : Rotation) (rs : List Rotation)
    → RowAgrees new
    → new.id ≡ n
    → ((r : Rotation) → In r rs → IsApart r new)
    → IsSound n rs
    → IsSound (n + 1) (rs ++ (new ∷ [])) × Grown rs (rs ++ (new ∷ []))
append-IsSound n new rs a i h v = (
  record {
    rows =
        All-append (λ r. RowAgrees r × (r.id < n + 1)) rs (new ∷ [])
          (All-members (λ r. RowAgrees r × (r.id < n + 1)) rs
            (λ r m. widen n r (All-In (λ r. RowAgrees r × (r.id < n)) r rs v.rows m)))
          ((a, subst (λ k. k < n + 1) (sym i) (omega arith)), tt);
    apart = Pairs-append IsApart rs new v.apart (All-members (λ r. IsApart r new) rs h);
  },
  Grown-append rs (new ∷ []),
)
