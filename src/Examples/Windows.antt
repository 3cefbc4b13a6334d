-- ===== src/Examples/Windows.antt =====
-- Runs of the temporal map, and its theorems at a concrete table.
use twilight_core_explorer.Common.{
  ℕ, ◌≡◌, refl, ◌↔◌, String, Option, none, some, List, [], ◌∷◌, arith, map,
}
use twilight_core_explorer.Text.{
  Text, ok, normalize_consensus_address, normalize_optional_consensus_address,
}
use twilight_core_explorer.Temporal.Window.{open_active_window, close_active_windows}
use twilight_core_explorer.Temporal.Types.{Window}
use twilight_core_explorer.Temporal.Table.{
  find_consensus_window_at_height, find_slot_consensus_window_at_height,
}
use twilight_core_explorer.Temporal.Height.{
  Upstream, lifecycle_events_at, rotations_at, project_core_slot_temporal_map_height,
  project_heights,
}
use twilight_core_explorer.Temporal.Invariant.{Past, IsConsistent}
use twilight_core_explorer.Temporal.Invariant.Heights.{
  HeightInOrder, height_end, height-IsConsistent,
}
use twilight_core_explorer.Temporal.Lookup.{IsOwner, find-eq-some_iff}
use twilight_core_explorer.Temporal.History.{slot_of, find-height_before}
use twilight_core_explorer.Examples.Temporal.{
  address, other_address, first_window, start, upstream, suspension, rotation,
}

bounds : List Window → List (Text × ℕ × Option ℕ)
bounds = map (λ w. (w.consensus_address, w.effective_from_height, w.effective_to_height))

-- The rotation closes the first window at height 11, and the suspension the second at height 14.
rotate_and_suspend :
    bounds (project_heights "c" upstream (λ _. none) 4 9 start).1.windows
    ≡ (address, 7, some 11) ∷ (other_address, 11, some 14) ∷ []
unfolding bounds project_heights close_active_windows normalize_consensus_address
    normalize_optional_consensus_address find_slot_consensus_window_at_height open_active_window
rotate_and_suspend = refl

-- The rotation is applied at 20, and the slot is suspended at 12. Where the rotation's row says so
-- already when its requested height is projected, the suspension closes no window.
abbrev late_rotation : Upstream
late_rotation = record {
  lifecycle_events = suspension ∷ [];
  rotations = record rotation { applied_height = some 20 } ∷ [];
}

rotated_early :
    bounds (project_heights "c" late_rotation (λ _. none) 5 8 start).1.windows
    ≡ (address, 7, some 22) ∷ (other_address, 22, none) ∷ []
unfolding bounds project_heights close_active_windows normalize_consensus_address
    normalize_optional_consensus_address find_slot_consensus_window_at_height open_active_window
rotated_early = refl

-- Where the row is still requested then, the first window ends with the suspension.
suspended_first :
    bounds
      (project_heights "c"
        (record late_rotation {
          rotations = record rotation { applied_height = none; status = "requested" } ∷ [];
        })
        (λ _. none)
        5
        8
        start).1.windows
    ≡ (address, 7, some 14) ∷ []
unfolding bounds project_heights close_active_windows normalize_consensus_address
    normalize_optional_consensus_address find_slot_consensus_window_at_height open_active_window
suspended_first = refl

abbrev at_start : Past
at_start = record { height = 8; windows = first_window ∷ [] }

start-IsConsistent : IsConsistent at_start 8 start
start-IsConsistent = record {
  bounded = (record { fresh = omega arith; active = refl; starts = omega arith; ends = tt }, tt);
  apart = (tt, tt);
  since = omega arith;
  history = (record { slot = refl; address = refl; start = refl; below = λ k lt. refl }, tt);
}

rotation_in_order : HeightInOrder 8 9 upstream
unfolding lifecycle_events_at rotations_at
rotation_in_order = record { lifecycle = tt; rotations = (omega arith, tt) }

height-IsConsistent_example :
    IsConsistent at_start
      (height_end 8 9 upstream)
      (project_core_slot_temporal_map_height "c" 9 upstream none start).1
    × ((message : String)
        → let t = (project_core_slot_temporal_map_height "c" 9 upstream (some message) start).1 in
          (t.windows ≡ start.windows) × IsConsistent at_start 8 t)
height-IsConsistent_example =
    height-IsConsistent "c" 8 9 upstream start rotation_in_order start-IsConsistent

address_ok : normalize_consensus_address (some address) ≡ ok address
unfolding normalize_consensus_address
address_ok = refl

find-eq-some_example :
    (find_consensus_window_at_height (some address) 9 start.windows ≡ some first_window)
    ↔ IsOwner start.windows address 9 first_window
find-eq-some_example =
    find-eq-some_iff 8 9 start (some address) address first_window start-IsConsistent address_ok

find-height_before_example :
    slot_of (
      find_consensus_window_at_height
        (some address)
        7
        (project_core_slot_temporal_map_height "c" 9 upstream none start).1.windows)
    ≡ slot_of (find_consensus_window_at_height (some address) 7 start.windows)
find-height_before_example =
    find-height_before "c" 8 9 7 upstream none start (some address) rotation_in_order
      start-IsConsistent (omega arith)
