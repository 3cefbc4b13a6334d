-- ===== src/KeyRotation/Invariant/Cancels.antt =====
-- A cancellation keeps the table of rotations sound.
use twilight_core_explorer.Common.{
  ℕ, ◌≡◌, inl, inr, refl, sym, ◌∙◌, subst, Option, none, some, List, [], ◌∷◌, keep_if,
}
use twilight_core_explorer.KeyRotation.Types.{EventSource, Rotation, Payload, RotationDb}
use twilight_core_explorer.KeyRotation.Rows.{
  by_cancelled, find_by_event, mark_rotation_cancelled, create_cancelled_rotation,
}
use twilight_core_explorer.KeyRotation.Projection.{
  RotationState, event_slot, settles, cancel_at, cancel_match, cancel_existing, cancel_event,
  project_cancelled_event,
}
use twilight_core_explorer.KeyRotation.Invariant.{Goes, Goes-refl, same_id}
use twilight_core_explorer.KeyRotation.Invariant.Find.{find_by_event-some, find_by_event-none}
use twilight_core_explorer.KeyRotation.Invariant.Writers.{
  row_agrees, RowAgrees-dropped, create_failure-Goes,
}
use twilight_core_explorer.KeyRotation.Invariant.Marks.{
  Cancellable, mark_cancelled-Goes, create_cancelled-Goes,
}
use twilight_core_explorer.KeyRotation.Invariant.Steps.{
  fails-Goes, settled, none-some, with_payload-Goes,
}

cancel_found :
    (event : EventSource) (payload : Payload) (db : RotationDb) (r : Rotation)
    → find_by_event by_cancelled event.id db.rotations ≡ some r
    → Goes db (mark_rotation_cancelled r.id event payload db)
cancel_found event payload db r h v =
    let here = find_by_event-some by_cancelled event.id db.rotations r h in
    let t = RowAgrees-dropped r event.id (row_agrees db.next_id db.rotations r v here.0) here.1 in
    let ok : Cancellable event.id r = record {
      not_applied = t.1;
      its_event = λ f p. some-injective (sym p ∙ here.1);
      onward = inl (sym t.0);
    } in
    mark_cancelled-Goes r.id event payload db
      (λ s m same.
        subst (Cancellable event.id) (same_id db.rotations r s v.apart here.0 m (sym same)) ok)
      (λ s t m k same a p.
        a.cancellations event.id
          (subst (λ x. by_cancelled x ≡ some event.id)
            (same_id db.rotations r s v.apart here.0 m (sym same)) here.1)
          p)
      v
  where
    some-injective : {a b : ℕ} → some a ≡ some b → a ≡ b
    some-injective e = cc

cancel_settled :
    (event : EventSource) (payload : Payload) (db : RotationDb) (r : Rotation)
    → find_by_event by_cancelled event.id db.rotations ≡ none
    → keep_if (settles payload) db.rotations ≡ r ∷ []
    → Goes db (mark_rotation_cancelled r.id event payload db)
cancel_settled event payload db r f h v =
    let at_r = settled payload db r v h in
    let ok : Cancellable event.id r = record {
      not_applied = at_r.2;
      its_event = λ e p. absurd (none-some (sym at_r.3 ∙ p));
      onward = inr at_r.1;
    } in
    mark_cancelled-Goes r.id event payload db
      (λ s m same.
        subst (Cancellable event.id) (same_id db.rotations r s v.apart at_r.0 m (sym same)) ok)
      (λ s t m k same a. find_by_event-none by_cancelled event.id db.rotations f t k) v

cancel_at-Goes :
    (event : EventSource) (payload : Payload) (r : Rotation) (s : RotationState)
    → Goes s.1 (mark_rotation_cancelled r.id event payload s.1)
    → Goes s.1 (cancel_at event payload r.id s).1
cancel_at-Goes event payload r (c, db) g = g

cancel_match-Goes :
    (event : EventSource) (payload : Payload) (s : RotationState) (rs : List Rotation)
    → find_by_event by_cancelled event.id s.1.rotations ≡ none
    → keep_if (settles payload) s.1.rotations ≡ rs
    → Goes s.1 (cancel_match event payload rs s).1
cancel_match-Goes event payload (c, db) [] f h =
    create_failure-Goes none (some event) _ db (create_cancelled_rotation event payload db)
      (create_cancelled-Goes event payload db f)
cancel_match-Goes event payload s (r ∷ []) f h =
    cancel_at-Goes event payload r s (cancel_settled event payload s.1 r f h)
cancel_match-Goes event payload s (r ∷ other ∷ rest) f h =
    fails-Goes none (some event) _ s.1 s (Goes-refl s.1)

cancel_existing-Goes :
    (event : EventSource) (payload : Payload) (s : RotationState) (o : Option Rotation)
    → find_by_event by_cancelled event.id s.1.rotations ≡ o
    → Goes s.1 (cancel_existing event payload o s).1
cancel_existing-Goes event payload s none f = cancel_match-Goes event payload s _ f refl
cancel_existing-Goes event payload s (some r) f =
    cancel_at-Goes event payload r s (cancel_found event payload s.1 r f)

pub project_cancelled-Goes :
    (event : EventSource) (s : RotationState) → Goes s.1 (project_cancelled_event event s).1
unfolding project_cancelled_event
project_cancelled-Goes event s =
    with_payload-Goes event (cancel_event event)
      (λ p t.
        cancel_existing-Goes event p t (find_by_event by_cancelled event.id t.1.rotations) refl)
      (event_slot event) s
