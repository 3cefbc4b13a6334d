-- ===== src/Temporal/Invariant.antt =====
-- The invariant of the window table. At a horizon `h`, no window starts or ends after `h`, a closed
-- window ends after its start, ids are fresh and distinct, and two windows of one slot, or of one
-- consensus address, cover no height together. It is stated beside an earlier table, whose coverage of
-- the heights below its horizon has not changed.
pub mod Update
pub mod Close
pub mod Open
pub mod Create
pub mod CloseActive
pub mod Events
pub mod Heights
use twilight_core_explorer.Common.{
  map, ◌∙◌, ◌++◌, ℕ, ◌+◌, ◌≤◌, ◌<◌, ◌≡◌, ◌≢◌, refl, ◌⊎◌, inl, inr, Bool, true, Option, none, some,
  List, [], ◌∷◌, All, All-map, arith,
}
use twilight_core_explorer.Temporal.Types.{Window, Db, active_status}
use twilight_core_explorer.Temporal.Table.{covers}
use twilight_core_explorer.Temporal.Lists.{Pairs}

abbrev pub EndsBy : ℕ → ℕ → Option ℕ → Type 0
EndsBy h from none = Unit
EndsBy h from (some to) = (from < to) × (to ≤ h)

pub record IsBounded (h n : ℕ) (w : Window) : Type 0 where
  pub fresh : w.id < n
  pub active : w.status ≡ active_status
  pub starts : w.effective_from_height ≤ h
  pub ends : EndsBy h w.effective_from_height w.effective_to_height

abbrev pub SharesOwner : Window → Window → Type 0
SharesOwner w v = (w.slot_id ≡ v.slot_id) ⊎ (w.consensus_address ≡ v.consensus_address)

pub record IsApart (w v : Window) : Type 0 where
  pub ids : w.id ≢ v.id
  pub disjoint : SharesOwner w v → (k : ℕ) → covers k w ≡ true → covers k v ≡ true → ⊥

-- `w'` is `w` as far as heights below `h` are concerned.
pub record SameBelow (h : ℕ) (w w' : Window) : Type 0 where
  pub slot : w'.slot_id ≡ w.slot_id
  pub address : w'.consensus_address ≡ w.consensus_address
  pub start : w'.effective_from_height ≡ w.effective_from_height
  pub below : (k : ℕ) → k < h → covers k w' ≡ covers k w

-- The table `vs` has the rows of `ws`, which below `h` are as they were, and new rows that start at
-- or after `h`.
abbrev pub Extends : ℕ → List Window → List Window → Type 0
Extends h [] vs = All (λ v. h ≤ v.effective_from_height) vs
Extends h (w ∷ ws) [] = ⊥
Extends h (w ∷ ws) (v ∷ vs) = SameBelow h w v × Extends h ws vs

-- An earlier table, and the horizon that it had.
pub record Past : Type 0 where
  pub height : ℕ
  pub windows : List Window

pub record IsConsistent (past : Past) (h : ℕ) (db : Db) : Type 0 where
  pub bounded : All (IsBounded h db.next_id) db.windows
  pub apart : Pairs IsApart db.windows
  pub since : past.height ≤ h
  pub history : Extends past.height past.windows db.windows

EndsBy-mono : (h h' from : ℕ) (to : Option ℕ) → h ≤ h' → EndsBy h from to → EndsBy h' from to
EndsBy-mono h h' from none le e = tt
EndsBy-mono h h' from (some to) le e = omega arith

pub IsBounded-mono :
    (h h' n n' : ℕ) (w : Window) → h ≤ h' → n ≤ n' → IsBounded h n w → IsBounded h' n' w
IsBounded-mono h h' n n' w le le' b = record {
  fresh = omega arith;
  active = b.active;
  starts = omega arith;
  ends = EndsBy-mono h h' w.effective_from_height w.effective_to_height le b.ends;
}

-- Time may pass with no event.
pub IsConsistent-mono :
    {past : Past} (h h' : ℕ) (db : Db) → h ≤ h' → IsConsistent past h db → IsConsistent past h' db
IsConsistent-mono h h' db le c = record {
  bounded =
      All-map (IsBounded h db.next_id) (IsBounded h' db.next_id) db.windows
        (λ w. IsBounded-mono h h' db.next_id db.next_id w le (omega arith)) c.bounded;
  apart = c.apart;
  since = let s = c.since in omega arith;
  history = c.history;
}

pub SameBelow-refl : (h : ℕ) (w : Window) → SameBelow h w w
SameBelow-refl h w = record { slot = refl; address = refl; start = refl; below = λ k lt. refl }

-- Every table extends itself.
pub Extends-refl : (h : ℕ) (ws : List Window) → Extends h ws ws
Extends-refl h [] = tt
Extends-refl h (w ∷ ws) = (SameBelow-refl h w, Extends-refl h ws)

SameBelow-trans :
    (h h' : ℕ) (w v u : Window) → h ≤ h' → SameBelow h w v → SameBelow h' v u → SameBelow h w u
SameBelow-trans h h' w v u le a b = record {
  slot = b.slot ∙ a.slot;
  address = b.address ∙ a.address;
  start = b.start ∙ a.start;
  below = λ k lt. b.below k (omega arith) ∙ a.below k lt;
}

-- A write that changes no coverage below the horizon.
pub Extends-map :
    (h h' : ℕ) (g : Window → Window) (ws vs : List Window)
    → h ≤ h'
    → All (λ v. SameBelow h' v (g v)) vs
    → Extends h ws vs
    → Extends h ws (map g vs)
Extends-map h h' g [] [] le s e = tt
Extends-map h h' g [] (v ∷ vs) le s e =
    (let q = s.0.start in let e' = e.0 in omega arith, Extends-map h h' g [] vs le s.1 e.1)
Extends-map h h' g (w ∷ ws) [] le s e = e
Extends-map h h' g (w ∷ ws) (v ∷ vs) le s e =
    (SameBelow-trans h h' w v (g v) le e.0 s.0, Extends-map h h' g ws vs le s.1 e.1)

pub Extends-append :
    (h : ℕ) (ws vs : List Window) (v : Window)
    → h ≤ v.effective_from_height
    → Extends h ws vs
    → Extends h ws (vs ++ (v ∷ []))
Extends-append h [] [] v le e = (le, tt)
Extends-append h [] (u ∷ us) v le e = (e.0, Extends-append h [] us v le e.1)
Extends-append h (w ∷ ws) [] v le e = absurd e
Extends-append h (w ∷ ws) (u ∷ us) v le e = (e.0, Extends-append h ws us v le e.1)
