-- ===== src/Temporal/Invariant/Heights.antt =====
-- Whole heights keep the table consistent, where the rows come in the order in which they take effect.
use twilight_core_explorer.Common.{ℕ, ◌≤◌, ◌≡◌, refl, none, some, List, [], ◌∷◌, String}
use twilight_core_explorer.Temporal.Types.{Db, LifecycleSource, RotationSource}
use twilight_core_explorer.Temporal.Events.{State, project_lifecycle_event, project_rotation}
use twilight_core_explorer.Temporal.Height.{
  Upstream, lifecycle_events_at, rotations_at, project_lifecycle_events, project_rotations,
  begin_height, project_core_slot_temporal_map_height,
}
use twilight_core_explorer.Temporal.Invariant.{Past, IsConsistent}
use twilight_core_explorer.Temporal.Invariant.Events.{
  lifecycle_horizon, rotation_horizon, lifecycle-IsConsistent, rotation-IsConsistent,
}

-- The horizon after the events, and that they take effect in order.
abbrev pub lifecycle_end : ℕ → List LifecycleSource → ℕ
lifecycle_end h [] = h
lifecycle_end h (e ∷ es) = lifecycle_end (lifecycle_horizon h e) es

abbrev pub LifecycleInOrder : ℕ → List LifecycleSource → Type 0
LifecycleInOrder h [] = Unit
LifecycleInOrder h (e ∷ es) =
    (h ≤ lifecycle_horizon h e) × LifecycleInOrder (lifecycle_horizon h e) es

abbrev pub rotation_end : ℕ → List RotationSource → ℕ
rotation_end h [] = h
rotation_end h (r ∷ rs) = rotation_end (rotation_horizon h r) rs

abbrev pub RotationsInOrder : ℕ → List RotationSource → Type 0
RotationsInOrder h [] = Unit
RotationsInOrder h (r ∷ rs) =
    (h ≤ rotation_horizon h r) × RotationsInOrder (rotation_horizon h r) rs

lifecycle_events-IsConsistent :
    {past : Past} (h : ℕ) (es : List LifecycleSource) (s : State)
    → LifecycleInOrder h es
    → IsConsistent past h s.1
    → IsConsistent past (lifecycle_end h es) (project_lifecycle_events es s).1
unfolding project_lifecycle_events
lifecycle_events-IsConsistent h [] s o k = k
lifecycle_events-IsConsistent h (e ∷ es) (c, db) o k =
    lifecycle_events-IsConsistent (lifecycle_horizon h e) es (project_lifecycle_event e (c, db)) o.1
      (lifecycle-IsConsistent h e c db k o.0)

rotations-IsConsistent :
    {past : Past} (h height : ℕ) (rs : List RotationSource) (s : State)
    → RotationsInOrder h rs
    → IsConsistent past h s.1
    → IsConsistent past (rotation_end h rs) (project_rotations height rs s).1
unfolding project_rotations
rotations-IsConsistent h height [] s o k = k
rotations-IsConsistent h height (r ∷ rs) (c, db) o k =
    rotations-IsConsistent (rotation_horizon h r) height rs (project_rotation height r (c, db)) o.1
      (rotation-IsConsistent h height r c db k o.0)

-- The rows of one height that change windows take effect in order, none before the horizon `h`:
-- lifecycle events, then rotations. A rotation is projected at its requested height with the status
-- that it has by then. One that has been applied already takes effect there, ahead of the events
-- between, which then may not be in order.
pub record HeightInOrder (h height : ℕ) (u : Upstream) : Type 0 where
  pub lifecycle : LifecycleInOrder h (lifecycle_events_at height u)
  pub rotations :
      RotationsInOrder (lifecycle_end h (lifecycle_events_at height u)) (rotations_at height u)

abbrev pub height_end : ℕ → ℕ → Upstream → ℕ
height_end h height u =
    rotation_end (lifecycle_end h (lifecycle_events_at height u)) (rotations_at height u)

-- Where a height's rows take effect in order, none before the horizon `h`, and the table is
-- consistent at `h`, projecting the height leaves a table that is consistent at the horizon that the
-- rows reach. Where the database ends the transaction by a fault, the windows are those before it,
-- and the table is consistent at `h` still.
pub height-IsConsistent :
    {past : Past} (chain : String) (h height : ℕ) (u : Upstream) (db : Db)
    → HeightInOrder h height u
    → IsConsistent past h db
    → IsConsistent past
        (height_end h height u)
        (project_core_slot_temporal_map_height chain height u none db).1
      × ((message : String)
          → let t = (project_core_slot_temporal_map_height chain height u (some message) db).1 in
            (t.windows ≡ db.windows) × IsConsistent past h t)
unfolding project_core_slot_temporal_map_height
height-IsConsistent chain h height u db o k = (
  (let r =
        rotations-IsConsistent (lifecycle_end h (lifecycle_events_at height u)) height
          (rotations_at height u)
          (project_lifecycle_events (lifecycle_events_at height u) (begin_height height db))
          o.rotations
          (lifecycle_events-IsConsistent h (lifecycle_events_at height u) (begin_height height db)
            o.lifecycle
            (record {
              bounded = k.bounded;
              apart = k.apart;
              since = k.since;
              history = k.history;
            })) in
      record { bounded = r.bounded; apart = r.apart; since = r.since; history = r.history }),
  λ message.
      (refl, record { bounded = k.bounded; apart = k.apart; since = k.since; history = k.history }),
)
