-- ===== src/KeyRotation/Recorded.antt =====
-- What `projectAppliedEvent` leaves in the table.
use twilight_core_explorer.Common.{
  ℕ, ◌≤◌, ◌≡◌, ◌≢◌, ◌⊎◌, inl, inr, refl, sym, ap, subst, false, Option, none, some, List, [], ◌∷◌,
  ◌++◌, keep_if, length, arith, ◌==◌, ==_iff,
}
use twilight_core_explorer.Text.{Text}
use twilight_core_explorer.Text.Integers.{ℤ}
use twilight_core_explorer.Temporal.Lists.{In, Pairs, All-In}
use twilight_core_explorer.KeyRotation.Types.{
  MessageSource, EventSource, Rotation, Payload, RotationDb,
}
use twilight_core_explorer.KeyRotation.Events.{extracted, extract_rotation_event_payload}
use twilight_core_explorer.KeyRotation.Rows.{
  by_applied, find_by_event, update_by_id, applied_fields, mark_rotation_applied,
  create_applied_rotation,
}
use twilight_core_explorer.KeyRotation.Columns.{blank}
use twilight_core_explorer.KeyRotation.Slots.{set_address, update_projection_consensus_address}
use twilight_core_explorer.KeyRotation.Failures.{create_rotation_failure}
use twilight_core_explorer.KeyRotation.Projection.{
  RotationState, event_slot, settles, apply_to, apply_match, apply_existing, project_applied_event,
}
use twilight_core_explorer.KeyRotation.Invariant.{IsApart, IsSound, taken, phase}
use twilight_core_explorer.KeyRotation.Invariant.Find.{find_by_event-some}
use twilight_core_explorer.KeyRotation.Invariant.Steps.{settled}

-- a row that names the event as the one that applied it, at the event's height
pub record IsRecorded (event : EventSource) (rs : List Rotation) : Type 0 where
  pub row : Rotation
  pub there : In row rs
  pub named : by_applied row ≡ some event.id
  pub is_taken : phase row.status ≡ taken
  pub height : row.applied_height ≡ some event.height

In-update_by_id :
    (f : Rotation → Rotation) (rs : List Rotation) (r : Rotation)
    → Pairs IsApart rs
    → In r rs
    → In (f r) (update_by_id r.id f rs)
unfolding update_by_id
In-update_by_id f [] r p m = absurd m
In-update_by_id f (s ∷ rs) r p (inl e) =
    rw ((==_iff s.id r.id).1 (ap (λ (x : Rotation). x.id) e)) (inl (ap f e))
In-update_by_id f (s ∷ rs) r p (inr m) =
    rw (other s.id r.id ((All-In (IsApart s) r rs p.0 m).ids)) (inr (In-update_by_id f rs r p.1 m))
  where
    other : (a b : ℕ) → a ≢ b → (a == b) ≡ false
    other a b n = ground (arith, ==_iff a b)

In-append_end : (rs : List Rotation) (r : Rotation) → In r (rs ++ (r ∷ []))
In-append_end [] r = inl refl
In-append_end (s ∷ rs) r = inr (In-append_end rs r)

address_rotations :
    (event : EventSource) (payload : Payload) (message : Option MessageSource)
    (operator : Option Text) (db : RotationDb)
    → (update_projection_consensus_address event payload message operator db).rotations
      ≡ db.rotations
unfolding update_projection_consensus_address
address_rotations event payload message operator db = at_address payload.new_consensus_address
  where
    at_address :
        (o : Option Text)
        → (set_address event payload message operator o db).rotations ≡ db.rotations
    at_address none = refl
    at_address (some []) = refl
    at_address (some (c ∷ s)) = refl

marked :
    (event : EventSource) (payload : Payload) (r : Rotation) (s : RotationState)
    → Pairs IsApart s.1.rotations
    → In r s.1.rotations
    → IsRecorded event (apply_to event payload r.id s).1.rotations
unfolding mark_rotation_applied
marked event payload r (c, db) p m = record {
  row = applied_fields event payload r;
  there =
      rw (address_rotations event payload none none (mark_rotation_applied r.id event payload db))
        (In-update_by_id (applied_fields event payload) db.rotations r p m);
  named = refl;
  is_taken = refl;
  height = refl;
}

created :
    (event : EventSource) (payload : Payload) (s : RotationState)
    → IsRecorded event (apply_match event payload [] s).1.rotations
unfolding create_applied_rotation create_rotation_failure
created event payload (c, db) =
    let new = blank db.next_id payload.slot_id in
    let row =
      applied_fields event payload (record new { operator_address = payload.operator_address }) in
    record {
      row = row;
      there =
          subst (In row)
            (sym (
              address_rotations event payload none none (create_applied_rotation event payload db)))
            (In-append_end db.rotations row);
      named = refl;
      is_taken = refl;
      height = refl;
    }

-- more than one requested rotation fits the event
abbrev pub IsAmbiguous : Payload → RotationDb → Type 0
IsAmbiguous payload db = 2 ≤ length (keep_if (settles payload) db.rotations)

matched :
    (event : EventSource) (payload : Payload) (s : RotationState) (rs : List Rotation)
    → IsSound s.1.next_id s.1.rotations
    → keep_if (settles payload) s.1.rotations ≡ rs
    → IsRecorded event (apply_match event payload rs s).1.rotations ⊎ IsAmbiguous payload s.1
matched event payload s [] v h = inl (created event payload s)
matched event payload s (r ∷ []) v h =
    inl (marked event payload r s v.apart (settled payload s.1 r v h).0)
matched event payload s (r ∷ other ∷ rest) v h = inr (rw h (omega arith))

existing :
    (event : EventSource) (payload : Payload) (s : RotationState) (o : Option Rotation)
    → IsSound s.1.next_id s.1.rotations
    → find_by_event by_applied event.id s.1.rotations ≡ o
    → IsRecorded event (apply_existing event payload o s).1.rotations ⊎ IsAmbiguous payload s.1
existing event payload s none v h = matched event payload s _ v refl
existing event payload s (some r) v h =
    inl (
      marked event payload r s v.apart (find_by_event-some by_applied event.id s.1.rotations r h).0)

-- An applied event with a slot and a sound payload is recorded, on a sound table: afterwards a row
-- names it, as taken at its height, unless two requested rotations or more fit it.
pub project_applied-IsRecorded :
    (event : EventSource) (s : RotationState) (slot : ℤ) (payload : Payload)
    → IsSound s.1.next_id s.1.rotations
    → event_slot event ≡ some slot
    → extract_rotation_event_payload event slot ≡ extracted payload
    → IsRecorded event (project_applied_event event s).1.rotations ⊎ IsAmbiguous payload s.1
unfolding project_applied_event
project_applied-IsRecorded event s slot payload v at_slot at_payload =
    rw (at_slot, at_payload)
      (existing event payload s (find_by_event by_applied event.id s.1.rotations) v refl)
