-- ===== src/KeyRotation/Invariant/Steps.antt =====
-- An applied event keeps the table of rotations sound.
use twilight_core_explorer.Common.{
  ℕ, ◌≡◌, inl, inr, refl, sym, ◌∙◌, subst, Bool, true, ◌&&◌, Option, none, some, List, [], ◌∷◌,
  keep_if, arith,
}
use twilight_core_explorer.Text.Integers.{ℤ, eq_int}
use twilight_core_explorer.Temporal.Lists.{In, In-keep_if}
use twilight_core_explorer.Projection.Failure.{FailureKind}
use twilight_core_explorer.KeyRotation.Types.{
  MessageSource, EventSource, Rotation, RotationStatus, requested, applied, immediate_applied,
  cancelled, Payload, RotationDb,
}
use twilight_core_explorer.KeyRotation.Events.{
  Extracted, extracted, refused, extract_rotation_event_payload,
}
use twilight_core_explorer.KeyRotation.Rows.{
  by_applied, by_cancelled, find_by_event, mark_rotation_applied, create_applied_rotation,
}
use twilight_core_explorer.KeyRotation.Projection.{
  RotationState, rotation_fails, with_payload, with_extracted, event_slot, is_requested, eq_address,
  effective_is, settles, apply_to, apply_match, apply_existing, apply_event, project_applied_event,
}
use twilight_core_explorer.KeyRotation.Invariant.{
  Phase, asked, taken, dropped, phase, Agrees, IsSound, Goes, Goes-refl, same_id,
}
use twilight_core_explorer.KeyRotation.Invariant.Find.{find_by_event-some, find_by_event-none}
use twilight_core_explorer.KeyRotation.Invariant.Writers.{
  row_agrees, RowAgrees-taken, update_address-Goes, create_failure-Goes,
}
use twilight_core_explorer.KeyRotation.Invariant.Marks.{
  Applicable, mark_applied-Goes, create_applied-Goes,
}

-- The failure rows and counters do not touch the rotations.
pub fails-Goes :
    (message : Option MessageSource) (event : Option EventSource) (kind : FailureKind)
    (a : RotationDb) (s : RotationState)
    → Goes a s.1
    → Goes a (rotation_fails message event kind s).1
fails-Goes message event kind a (c, db) g = create_failure-Goes message event kind a db g

found-Applicable :
    (e : ℕ) (db : RotationDb) (r : Rotation)
    → IsSound db.next_id db.rotations
    → In r db.rotations
    → by_applied r ≡ some e
    → Applicable e r
found-Applicable e db r v m k =
    let t = RowAgrees-taken r e (row_agrees db.next_id db.rotations r v m) k in
    record {
      not_cancelled = t.1;
      its_event = λ f p. some-injective (sym p ∙ k);
      onward = inl (sym t.0);
    }
  where
    some-injective : {a b : ℕ} → some a ≡ some b → a ≡ b
    some-injective e = cc

apply_found :
    (event : EventSource) (payload : Payload) (db : RotationDb) (r : Rotation)
    → find_by_event by_applied event.id db.rotations ≡ some r
    → Goes db (mark_rotation_applied r.id event payload db)
apply_found event payload db r h v =
    let here = find_by_event-some by_applied event.id db.rotations r h in
    let ok = found-Applicable event.id db r v here.0 here.1 in
    mark_applied-Goes r.id event payload db
      (λ s m same.
        subst (Applicable event.id) (same_id db.rotations r s v.apart here.0 m (sym same)) ok)
      (λ s t m k same a p.
        a.applications event.id
          (subst (λ x. by_applied x ≡ some event.id)
            (same_id db.rotations r s v.apart here.0 m (sym same)) here.1)
          p)
      v

is_requested-asked : (s : RotationStatus) → is_requested s ≡ true → phase s ≡ asked
is_requested-asked requested e = refl
is_requested-asked applied e = ground arith
is_requested-asked immediate_applied e = ground arith
is_requested-asked cancelled e = ground arith

settles-asked :
    (payload : Payload) (r : Rotation) → settles payload r ≡ true → phase r.status ≡ asked
settles-asked payload r e = is_requested-asked r.status (
    third (eq_int r.slot_id payload.slot_id) (is_requested r.status)
      (eq_address r.new_consensus_address payload.new_consensus_address)
      (effective_is payload.effective_height r.effective_height) e)
  where
    third : (a b c d : Bool) → (a && b && c && d) ≡ true → b ≡ true
    third a b c d e = ground arith

asked_events :
    (p : Phase) (a c at_a at_c : Option ℕ)
    → Agrees p a c at_a at_c
    → p ≡ asked
    → (a ≡ none) × (c ≡ none)
asked_events asked a c at_a at_c h e = h
asked_events taken a c at_a at_c h e = cc
asked_events dropped a c at_a at_c h e = cc

-- the one requested row that an event settles
pub settled :
    (payload : Payload) (db : RotationDb) (r : Rotation)
    → IsSound db.next_id db.rotations
    → keep_if (settles payload) db.rotations ≡ r ∷ []
    → In r db.rotations × (phase r.status ≡ asked) × (by_applied r ≡ none) × (by_cancelled r ≡ none)
settled payload db r v h =
    let member = In-keep_if (settles payload) r db.rotations (subst (In r) (sym h) (inl refl)) in
    let is_asked = settles-asked payload r member.1 in
    let none_yet =
      asked_events (phase r.status) r.source_applied_event_id r.source_cancelled_event_id
        r.applied_height r.cancelled_height (row_agrees db.next_id db.rotations r v member.0)
        is_asked in
    (member.0, is_asked, none_yet.0, none_yet.1)

pub none-some : {e : ℕ} → none ≡ some e → ⊥
none-some p = cc

apply_settled :
    (event : EventSource) (payload : Payload) (db : RotationDb) (r : Rotation)
    → find_by_event by_applied event.id db.rotations ≡ none
    → keep_if (settles payload) db.rotations ≡ r ∷ []
    → Goes db (mark_rotation_applied r.id event payload db)
apply_settled event payload db r f h v =
    let at_r = settled payload db r v h in
    let ok : Applicable event.id r = record {
      not_cancelled = at_r.3;
      its_event = λ e p. absurd (none-some (sym at_r.2 ∙ p));
      onward = inr at_r.1;
    } in
    mark_applied-Goes r.id event payload db
      (λ s m same.
        subst (Applicable event.id) (same_id db.rotations r s v.apart at_r.0 m (sym same)) ok)
      (λ s t m k same a. find_by_event-none by_applied event.id db.rotations f t k) v

apply_to-Goes :
    (event : EventSource) (payload : Payload) (r : Rotation) (s : RotationState)
    → Goes s.1 (mark_rotation_applied r.id event payload s.1)
    → Goes s.1 (apply_to event payload r.id s).1
apply_to-Goes event payload r (c, db) g =
    update_address-Goes event payload none none db (mark_rotation_applied r.id event payload db) g

apply_match-Goes :
    (event : EventSource) (payload : Payload) (s : RotationState) (rs : List Rotation)
    → find_by_event by_applied event.id s.1.rotations ≡ none
    → keep_if (settles payload) s.1.rotations ≡ rs
    → Goes s.1 (apply_match event payload rs s).1
apply_match-Goes event payload (c, db) [] f h = create_failure-Goes none (some event) _ db _ (
    update_address-Goes event payload none none db (create_applied_rotation event payload db)
      (create_applied-Goes event payload db f))
apply_match-Goes event payload s (r ∷ []) f h =
    apply_to-Goes event payload r s (apply_settled event payload s.1 r f h)
apply_match-Goes event payload s (r ∷ other ∷ rest) f h =
    fails-Goes none (some event) _ s.1 s (Goes-refl s.1)

apply_existing-Goes :
    (event : EventSource) (payload : Payload) (s : RotationState) (o : Option Rotation)
    → find_by_event by_applied event.id s.1.rotations ≡ o
    → Goes s.1 (apply_existing event payload o s).1
apply_existing-Goes event payload s none f = apply_match-Goes event payload s _ f refl
apply_existing-Goes event payload s (some r) f =
    apply_to-Goes event payload r s (apply_found event payload s.1 r f)

with_extracted-Goes :
    (event : EventSource) (act : Payload → RotationState → RotationState)
    → ((p : Payload) (s : RotationState) → Goes s.1 (act p s).1)
    → (x : Extracted) (s : RotationState) → Goes s.1 (with_extracted event act x s).1
with_extracted-Goes event act h (refused kind) s =
    fails-Goes none (some event) kind s.1 s (Goes-refl s.1)
with_extracted-Goes event act h (extracted payload) s = h payload s

pub with_payload-Goes :
    (event : EventSource) (act : Payload → RotationState → RotationState)
    → ((p : Payload) (s : RotationState) → Goes s.1 (act p s).1)
    → (slot : Option ℤ) (s : RotationState) → Goes s.1 (with_payload event act slot s).1
with_payload-Goes event act h none s = fails-Goes none (some event) _ s.1 s (Goes-refl s.1)
with_payload-Goes event act h (some slot) s =
    with_extracted-Goes event act h (extract_rotation_event_payload event slot) s

pub project_applied-Goes :
    (event : EventSource) (s : RotationState) → Goes s.1 (project_applied_event event s).1
unfolding project_applied_event
project_applied-Goes event s =
    with_payload-Goes event (apply_event event)
      (λ p t. apply_existing-Goes event p t (find_by_event by_applied event.id t.1.rotations) refl)
      (event_slot event) s
