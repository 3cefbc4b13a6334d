-- ===== src/KeyRotation/Invariant/Heights.antt =====
-- A message, a height and a range keep the table of rotations sound, and its rows go forward.
use twilight_core_explorer.Common.{
  String, zero, suc, ◌+◌, ◌||◌, if◌then◌else◌, ℕ, inl, inr, refl, subst, Bool, true, false, Option,
  none, some, List, [], ◌∷◌,
}
use twilight_core_explorer.Text.Integers.{ℤ}
use twilight_core_explorer.Temporal.Lists.{In}
use twilight_core_explorer.Projection.Failure.{missing_message}
use twilight_core_explorer.KeyRotation.Types.{MessageSource, EventSource, Rotation, RotationDb}
use twilight_core_explorer.KeyRotation.Events.{
  Extracted, extracted, refused, extract_rotation_event_payload, parse_slot_id,
  read_message_slot_id, read_message_operator,
}
use twilight_core_explorer.KeyRotation.Rows.{upsert_requested_rotation}
use twilight_core_explorer.KeyRotation.Projection.{
  RotationState, Used, write_rotation, on_requested, on_rotated, match_rotated, match_requested,
  candidates, message_on_slot, project_rotation_message, event_slot, orphan,
  project_orphan_requested_event, project_applied_event, project_cancelled_event,
}
use twilight_core_explorer.KeyRotation.Invariant.{IsSound, Goes, Goes-refl, Goes-trans}
use twilight_core_explorer.KeyRotation.Invariant.Writers.{
  upsert_requested-Goes, upsert_immediate-Goes,
}
use twilight_core_explorer.KeyRotation.Invariant.Steps.{
  fails-Goes, with_payload-Goes, project_applied-Goes,
}
use twilight_core_explorer.KeyRotation.Invariant.Cancels.{project_cancelled-Goes}
use twilight_core_explorer.KeyRotation.Types.{Chain, RotationCounters}
use twilight_core_explorer.Temporal.Genesis.{Outcome, done, thrown}
use twilight_core_explorer.KeyRotation.Invariant.{Grown, Forward}
use twilight_core_explorer.KeyRotation.Projection.{is_used}
use twilight_core_explorer.KeyRotation.Height.{
  is_failed, events_at, is_requested_type, is_rotated_type, is_rotation_cancel_event_type,
  successful_tx_hashes, rotation_messages, no_events, continue_rotations, prepend_counters,
  project_core_slot_key_rotation_range, project_messages, project_events, project_all_events,
  project_rotation_rows, project_core_slot_key_rotation_height, begin_rotations,
}

on_requested-Goes :
    (message : MessageSource) (event : EventSource) (x : Extracted) (u : Used × RotationState)
    → Goes u.1.1 (on_requested message event x u).1.1
on_requested-Goes message event (refused kind) (used, s) =
    fails-Goes (some message) (some event) kind s.1 s (Goes-refl s.1)
on_requested-Goes message event (extracted payload) (used, (c, db)) =
    upsert_requested-Goes (some message) event payload (read_message_operator message) db

on_rotated-Goes :
    (message : MessageSource) (event : EventSource) (x : Extracted) (u : Used × RotationState)
    → Goes u.1.1 (on_rotated message event x u).1.1
on_rotated-Goes message event (refused kind) (used, s) =
    fails-Goes (some message) (some event) kind s.1 s (Goes-refl s.1)
on_rotated-Goes message event (extracted payload) (used, (c, db)) =
    upsert_immediate-Goes message event payload (read_message_operator message) db

match_rotated-Goes :
    (message : MessageSource) (slot : ℤ) (es : List EventSource) (u : Used × RotationState)
    → Goes u.1.1 (match_rotated message slot es u).1.1
match_rotated-Goes message slot [] (used, s) =
    fails-Goes (some message) none _ s.1 s (Goes-refl s.1)
match_rotated-Goes message slot (event ∷ []) u =
    on_rotated-Goes message event (extract_rotation_event_payload event slot) u
match_rotated-Goes message slot (event ∷ other ∷ rest) (used, s) =
    fails-Goes (some message) (some event) _ s.1 s (Goes-refl s.1)

match_requested-Goes :
    (message : MessageSource) (slot : ℤ) (es fs : List EventSource) (u : Used × RotationState)
    → Goes u.1.1 (match_requested message slot es fs u).1.1
match_requested-Goes message slot [] fs u = match_rotated-Goes message slot fs u
match_requested-Goes message slot (event ∷ []) fs u =
    on_requested-Goes message event (extract_rotation_event_payload event slot) u
match_requested-Goes message slot (event ∷ other ∷ rest) fs (used, s) =
    fails-Goes (some message) (some event) _ s.1 s (Goes-refl s.1)

message_on_slot-Goes :
    (es fs : List EventSource) (message : MessageSource) (slot : Option ℤ)
    (u : Used × RotationState)
    → Goes u.1.1 (message_on_slot es fs message slot u).1.1
message_on_slot-Goes es fs message none (used, s) =
    fails-Goes (some message) none _ s.1 s (Goes-refl s.1)
message_on_slot-Goes es fs message (some slot) (used, s) =
    match_requested-Goes message slot (candidates message slot used.requested_ids es)
      (candidates message slot used.rotated_ids fs) (used, s)

project_messages-Goes :
    (es fs : List EventSource) (ms : List MessageSource) (u : Used × RotationState)
    → Goes u.1.1 (project_messages es fs ms u).1.1
unfolding project_messages project_rotation_message
project_messages-Goes es fs [] u = Goes-refl u.1.1
project_messages-Goes es fs (m ∷ ms) u =
    let v = project_rotation_message es fs m u in
    Goes-trans u.1.1 v.1.1 (project_messages es fs ms v).1.1
      (message_on_slot-Goes es fs m (parse_slot_id (read_message_slot_id m)) u)
      (project_messages-Goes es fs ms v)

project_events-Goes :
    (project : EventSource → RotationState → RotationState) (passed_over : EventSource → Bool)
    → ((e : EventSource) (s : RotationState) → Goes s.1 (project e s).1)
    → (es : List EventSource) (s : RotationState)
    → Goes s.1 (project_events project passed_over es s).1
unfolding project_events
project_events-Goes project passed_over h [] s = Goes-refl s.1
project_events-Goes project passed_over h (e ∷ es) s =
    Goes-trans s.1 (if passed_over e then s else project e s).1
      (project_events project passed_over es (if passed_over e then s else project e s)).1
      (either (passed_over e))
      (project_events-Goes project passed_over h es (if passed_over e then s else project e s))
  where
    either : (b : Bool) → Goes s.1 (if b then s else project e s).1
    either true = Goes-refl s.1
    either false = h e s

project_orphan-Goes :
    (event : EventSource) (s : RotationState) → Goes s.1 (project_orphan_requested_event event s).1
unfolding project_orphan_requested_event
project_orphan-Goes event s =
    with_payload-Goes event (orphan event)
      (λ p t.
        fails-Goes none (some event) missing_message t.1
          (write_rotation (upsert_requested_rotation none event p p.operator_address) t)
          (upsert_requested-Goes none event p p.operator_address t.1))
      (event_slot event) s

project_all_events-Goes :
    (successful : List String) (es fs gs : List EventSource) (u : Used × RotationState)
    → Goes u.1.1 (project_all_events successful es fs gs u).1
project_all_events-Goes successful es fs gs (used, s) =
    let orphans =
      project_events project_orphan_requested_event
        (λ e. is_used used.requested_ids e || is_failed successful e) es s in
    let applied_events =
      project_events project_applied_event
        (λ e. is_used used.rotated_ids e || is_failed successful e) fs orphans in
    let cancels = project_events project_cancelled_event (is_failed successful) gs applied_events in
    Goes-trans s.1 orphans.1 cancels.1
      (project_events-Goes project_orphan_requested_event _ project_orphan-Goes es s)
      (Goes-trans orphans.1 applied_events.1 cancels.1
        (project_events-Goes project_applied_event _ project_applied-Goes fs orphans)
        (project_events-Goes project_cancelled_event _ project_cancelled-Goes gs applied_events))

project_rows-Goes :
    (height : ℕ) (chain : Chain) (db : RotationDb)
    → Goes db (project_rotation_rows height chain db).1
unfolding project_rotation_rows
project_rows-Goes height chain db =
    let es = events_at height is_requested_type chain in
    let fs = events_at height is_rotated_type chain in
    let gs = events_at height is_rotation_cancel_event_type chain in
    let successful = successful_tx_hashes height chain in
    let u =
      project_messages es fs (rotation_messages height successful chain)
        (no_events, begin_rotations height db) in
    Goes-trans db u.1.1 (project_all_events successful es fs gs u).1
      (project_messages-Goes es fs (rotation_messages height successful chain)
        (no_events, begin_rotations height db))
      (project_all_events-Goes successful es fs gs u)

project_height-Goes :
    (chain_id : String) (height : ℕ) (chain : Chain) (fault : Option String) (db : RotationDb)
    → Goes db (project_core_slot_key_rotation_height chain_id height chain fault db).1
unfolding project_core_slot_key_rotation_height
project_height-Goes chain_id height chain none db = project_rows-Goes height chain db
project_height-Goes chain_id height chain (some message) db = Goes-refl db

continue-Goes :
    (x : Outcome RotationCounters × RotationDb)
    (rest : RotationDb → Outcome (List RotationCounters) × RotationDb) (a : RotationDb)
    → Goes a x.1
    → ((b : RotationDb) → Goes b (rest b).1)
    → Goes a (continue_rotations x rest).1
continue-Goes (thrown message, db) rest a g h = g
continue-Goes (done c, db) rest a g h = prepended c (rest db) (Goes-trans a db (rest db).1 g (h db))
  where
    prepended :
        (c : RotationCounters) (y : Outcome (List RotationCounters) × RotationDb)
        → Goes a y.1
        → Goes a (prepend_counters c y).1
    prepended c (done cs, db) g = g
    prepended c (thrown message, db) g = g

range-Goes :
    (chain_id : String) (chain : Chain) (faults : ℕ → Option String) (count height : ℕ)
    (db : RotationDb)
    → Goes db (project_core_slot_key_rotation_range chain_id chain faults count height db).1
unfolding project_core_slot_key_rotation_range
range-Goes chain_id chain faults zero height db = Goes-refl db
range-Goes chain_id chain faults (suc count) height db =
    continue-Goes (project_core_slot_key_rotation_height chain_id height chain (faults height) db)
      (project_core_slot_key_rotation_range chain_id chain faults count (height + 1)) db
      (project_height-Goes chain_id height chain (faults height) db)
      (range-Goes chain_id chain faults count (height + 1))

-- Projecting a range of heights, with whatever faults, keeps the table of rotations sound: every row's
-- status agrees with the events and heights that it names, ids are unique and below the sequence, and
-- no two rows share a request, an application or a cancellation.
pub range-IsSound :
    (chain_id : String) (chain : Chain) (faults : ℕ → Option String) (count height : ℕ)
    (db : RotationDb)
    → IsSound db.next_id db.rotations
    → let to = (project_core_slot_key_rotation_range chain_id chain faults count height db).1 in
      IsSound to.next_id to.rotations
range-IsSound chain_id chain faults count height db v =
    (range-Goes chain_id chain faults count height db v).0

Grown-In :
    (rs ss : List Rotation) (r : Rotation)
    → Grown rs ss
    → In r rs
    → (s : Rotation) × (In s ss × Forward r s)
Grown-In [] ss r g m = absurd m
Grown-In (x ∷ rs) [] r g m = absurd g
Grown-In (x ∷ rs) (y ∷ ss) r g (inl e) = (y, (inl refl, subst (λ z. Forward z y) e g.0))
Grown-In (x ∷ rs) (y ∷ ss) r g (inr m) = let (s, (k, f)) = Grown-In rs ss r g.1 m in (s, (inr k, f))

-- The table refines a machine of three phases, asked, taken and dropped: over a range of heights a
-- rotation of a sound table stays in it, with its id and the events that it names, and leaves its
-- phase only from asked.
pub range-Forward :
    (chain_id : String) (chain : Chain) (faults : ℕ → Option String) (count height : ℕ)
    (db : RotationDb) (r : Rotation)
    → IsSound db.next_id db.rotations
    → In r db.rotations
    → (s : Rotation) × (In s
          (project_core_slot_key_rotation_range chain_id chain faults count height db).1.rotations
        × Forward r s)
range-Forward chain_id chain faults count height db r v m =
    Grown-In db.rotations _ r (range-Goes chain_id chain faults count height db v).1 m
