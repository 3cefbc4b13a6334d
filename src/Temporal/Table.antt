-- ===== src/Temporal/Table.antt =====
-- The queries of coreslot-temporal-map.ts over the window table: prisma's `where` is a filter, and
-- `orderBy` an insertion sort. Of rows with equal keys the one that was created first comes first.
use twilight_core_explorer.Common.{
  ℕ, Bool, true, false, ◌&&◌, Option, none, some, List, [], ◌∷◌, ltb, leb, ◌==◌, keep_if, map,
  str_eq, if◌then◌else◌,
}
use twilight_core_explorer.Text.{
  Text, eq_text, ok, invalid, Normalized, normalize_consensus_address,
}
use twilight_core_explorer.Temporal.Types.{Window, active_status}

-- effectiveFromHeight <= height AND (effectiveToHeight IS NULL OR effectiveToHeight > height)
unfoldable pub covers : ℕ → Window → Bool
covers height w =
    leb w.effective_from_height height
    && (elim w.effective_to_height [ none ↦ true | some to ↦ ltb height to ])

-- orderBy key ascending
unfoldable pub insert_by : (Window → ℕ) → Window → List Window → List Window
insert_by key w [] = w ∷ []
insert_by key w (v ∷ vs) = if leb (key w) (key v) then w ∷ v ∷ vs else v ∷ insert_by key w vs

unfoldable pub sort_by : (Window → ℕ) → List Window → List Window
unfolding insert_by
sort_by key [] = []
sort_by key (w ∷ ws) = insert_by key w (sort_by key ws)

-- findFirst with orderBy effectiveFromHeight descending
abbrev pub later_of : Window → Option Window → Window
later_of w none = w
later_of w (some v) = if ltb w.effective_from_height v.effective_from_height then v else w

unfoldable pub latest : List Window → Option Window
latest [] = none
latest (w ∷ ws) = some (later_of w (latest ws))

abbrev pub covers_address : Text → ℕ → Window → Bool
covers_address address height w = eq_text w.consensus_address address && covers height w

abbrev pub covers_slot : ℕ → ℕ → Window → Bool
covers_slot slot height w = w.slot_id == slot && covers height w

abbrev pub find_address : Normalized → ℕ → List Window → Option Window
find_address invalid height ws = none
find_address (ok address) height ws = latest (keep_if (covers_address address height) ws)

-- `findConsensusWindowAtHeight`
unfoldable pub find_consensus_window_at_height : Option Text → ℕ → List Window → Option Window
unfolding latest covers
find_consensus_window_at_height address height ws =
    find_address (normalize_consensus_address address) height ws

-- `findActiveCoreSlotWindowsAtHeight`: orderBy slotId, then effectiveFromHeight
unfoldable pub find_active_core_slot_windows_at_height : ℕ → List Window → List Window
unfolding sort_by covers
find_active_core_slot_windows_at_height height ws =
    sort_by (λ w. w.slot_id) (sort_by (λ w. w.effective_from_height) (keep_if (covers height) ws))

abbrev pub find_slot_address : Normalized → ℕ → ℕ → List Window → Option Window
find_slot_address invalid slot height ws = none
find_slot_address (ok address) slot height ws =
    latest (keep_if (λ w. w.slot_id == slot && covers_address address height w) ws)

-- `findSlotConsensusWindowAtHeight` with an address and a height
unfoldable pub find_slot_consensus_window_at_height : ℕ → Text → ℕ → List Window → Option Window
unfolding latest covers
find_slot_consensus_window_at_height slot address height ws =
    find_slot_address (normalize_consensus_address (some address)) slot height ws

-- `findSlotConsensusWindowAtHeight` with a height alone
unfoldable pub find_slot_window_at_height : ℕ → ℕ → List Window → Option Window
unfolding latest covers
find_slot_window_at_height slot height ws = latest (keep_if (covers_slot slot height) ws)

-- `findConsensusWindowsAtHeight`
unfoldable pub find_consensus_windows_at_height : Text → ℕ → List Window → List Window
unfolding sort_by covers
find_consensus_windows_at_height address height ws =
    sort_by (λ w. w.effective_from_height) (keep_if (covers_address address height) ws)

abbrev pub is_open_slot_window : ℕ → Window → Bool
is_open_slot_window slot w =
    w.slot_id == slot
    && str_eq w.status active_status
    && (elim w.effective_to_height [ none ↦ true | some to ↦ false ])

-- `findOpenSlotWindows`
unfoldable pub find_open_slot_windows : ℕ → List Window → List Window
unfolding sort_by
find_open_slot_windows slot ws =
    sort_by (λ w. w.effective_from_height) (keep_if (is_open_slot_window slot) ws)

-- prisma `update` by id
unfoldable pub update_window : ℕ → (Window → Window) → List Window → List Window
update_window id change = map (λ w. if w.id == id then change w else w)
