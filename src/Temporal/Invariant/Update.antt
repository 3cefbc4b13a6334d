-- ===== src/Temporal/Invariant/Update.antt =====
-- A write to one row, found by its id, that does not lengthen the row's window.
use twilight_core_explorer.Common.{
  ◌≢◌, ℕ, ◌≡◌, refl, sym, ap, subst, inl, inr, true, List, [], ◌∷◌, map, All, All-map, ◌==◌, ==_iff,
  if◌then◌else◌, Bool-cases,
}
use twilight_core_explorer.Temporal.Types.{Window}
use twilight_core_explorer.Temporal.Table.{covers}
use twilight_core_explorer.Temporal.Lists.{In, All-In, Pairs}
use twilight_core_explorer.Temporal.Invariant.{IsApart, SharesOwner}

-- `w'` is `w` with other columns, covering no height that `w` does not.
pub record Shrinks (w w' : Window) : Type 0 where
  pub id : w'.id ≡ w.id
  pub slot : w'.slot_id ≡ w.slot_id
  pub address : w'.consensus_address ≡ w.consensus_address
  pub within : (k : ℕ) → covers k w' ≡ true → covers k w ≡ true

pub Shrinks-refl : (w : Window) → Shrinks w w
Shrinks-refl w = record { id = refl; slot = refl; address = refl; within = λ k h. h }

SharesOwner-shrunk :
    {w w' v v' : Window} → Shrinks w w' → Shrinks v v' → SharesOwner w' v' → SharesOwner w v
SharesOwner-shrunk s t (inl e) = inl (cc (s.slot, t.slot))
SharesOwner-shrunk s t (inr e) = inr (cc (s.address, t.address))

IsApart-shrunk : {w w' v v' : Window} → Shrinks w w' → Shrinks v v' → IsApart w v → IsApart w' v'
IsApart-shrunk s t a = record {
  ids = λ e. a.ids (cc (s.id, t.id));
  disjoint = λ o k p q. a.disjoint (SharesOwner-shrunk s t o) k (s.within k p) (t.within k q);
}

All-IsApart-map :
    (g : Window → Window) (w : Window) (ws : List Window)
    → Shrinks w (g w)
    → All (λ v. Shrinks v (g v)) ws
    → All (IsApart w) ws
    → All (IsApart (g w)) (map g ws)
All-IsApart-map g w [] s ss a = tt
All-IsApart-map g w (v ∷ vs) s ss a = (IsApart-shrunk s ss.0 a.0, All-IsApart-map g w vs s ss.1 a.1)

pub Pairs-IsApart-map :
    (g : Window → Window) (ws : List Window)
    → All (λ v. Shrinks v (g v)) ws
    → Pairs IsApart ws
    → Pairs IsApart (map g ws)
Pairs-IsApart-map g [] ss p = tt
Pairs-IsApart-map g (w ∷ ws) ss p =
    (All-IsApart-map g w ws ss.0 ss.1 p.0, Pairs-IsApart-map g ws ss.1 p.1)

unique_after :
    (x w : Window) (ws : List Window)
    → x ≡ w
    → All (IsApart x) ws
    → All (λ v. v.id ≡ w.id → v ≡ w) ws
unique_after x w [] e a = tt
unique_after x w (v ∷ vs) e a =
    (λ q. absurd (a.0.ids (cc (ap (λ (z : Window). z.id) e))), unique_after x w vs e a.1)

-- An id names one row.
pub unique_id :
    (w : Window) (ws : List Window) → In w ws → Pairs IsApart ws → All (λ v. v.id ≡ w.id → v ≡ w) ws
unique_id w [] m p = tt
unique_id w (x ∷ xs) (inl e) p = (λ q. e, unique_after x w xs e p.0)
unique_id w (x ∷ xs) (inr m) p =
    (λ q. absurd ((All-In (IsApart x) w xs p.0 m).ids q), unique_id w xs m p.1)

abbrev pub at_id : ℕ → (Window → Window) → Window → Window
at_id id change w = if w.id == id then change w else w

at_id-case :
    (P : Window → Window → Type 0) (w v : Window) (change : Window → Window)
    → (v.id ≡ w.id → v ≡ w)
    → P w (change w)
    → (v.id ≢ w.id → P v v)
    → P v (at_id w.id change v)
at_id-case P w v change only changed same = elim (Bool-cases (v.id == w.id)) [
  | inl e ↦ rw e (subst (λ z. P z (change z)) (sym (only ((==_iff v.id w.id).0 e))) changed)
  | inr e ↦ rw e (same (λ q. cc ((==_iff v.id w.id).1 q)))
]

-- What holds of the changed row, and of the other rows as they were, holds after the write.
pub All-update_ne :
    (P : Window → Window → Type 0) (w : Window) (change : Window → Window) (ws : List Window)
    → All (λ v. v.id ≡ w.id → v ≡ w) ws
    → P w (change w)
    → All (λ v. v.id ≢ w.id → P v v) ws
    → All (λ v. P v (at_id w.id change v)) ws
All-update_ne P w change [] only changed same = tt
All-update_ne P w change (v ∷ vs) only changed same = (
  at_id-case P w v change only.0 changed same.0,
  All-update_ne P w change vs only.1 changed same.1,
)

pub All-update :
    (P : Window → Window → Type 0) (w : Window) (change : Window → Window) (ws : List Window)
    → All (λ v. v.id ≡ w.id → v ≡ w) ws
    → P w (change w)
    → All (λ v. P v v) ws
    → All (λ v. P v (at_id w.id change v)) ws
All-update P w change ws only changed same =
    All-update_ne P w change ws only changed
      (All-map (λ v. P v v) (λ v. v.id ≢ w.id → P v v) ws (λ v p _. p) same)

pub All-of_map {κ} :
    (P : Window → Type κ) (g : Window → Window) (ws : List Window)
    → All (λ v. P (g v)) ws
    → All P (map g ws)
All-of_map P g [] h = tt
All-of_map P g (w ∷ ws) h = (h.0, All-of_map P g ws h.1)
