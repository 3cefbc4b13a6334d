-- ===== src/KeyRotation/Invariant/Marks.antt =====
-- `markRotationApplied` and `markRotationCancelled`, and the rows that an event alone creates.
use twilight_core_explorer.Common.{ℕ, ◌≡◌, ◌≢◌, ◌⊎◌, refl, sym, ap, ◌∙◌, none, some, arith}
use twilight_core_explorer.Temporal.Lists.{In}
use twilight_core_explorer.KeyRotation.Types.{EventSource, Rotation, Payload, RotationDb}
use twilight_core_explorer.KeyRotation.Rows.{
  by_applied, by_cancelled, find_by_event, mark_rotation_applied, create_applied_rotation,
  mark_rotation_cancelled, create_cancelled_rotation,
}
use twilight_core_explorer.KeyRotation.Invariant.{asked, taken, dropped, phase, IsApart, Goes}
use twilight_core_explorer.KeyRotation.Invariant.Update.{update_by_id-IsSound, append-IsSound}
use twilight_core_explorer.KeyRotation.Invariant.Find.{find_by_event-none}
use twilight_core_explorer.KeyRotation.Invariant.Writers.{old_id}

-- a row that may be marked by an applied event
pub record Applicable (event : ℕ) (r : Rotation) : Type 0 where
  pub not_cancelled : by_cancelled r ≡ none
  pub its_event : (e : ℕ) → by_applied r ≡ some e → e ≡ event
  pub onward : (taken ≡ phase r.status) ⊎ (phase r.status ≡ asked)

-- a row that may be marked by a cancellation
pub record Cancellable (event : ℕ) (r : Rotation) : Type 0 where
  pub not_applied : by_applied r ≡ none
  pub its_event : (e : ℕ) → by_cancelled r ≡ some e → e ≡ event
  pub onward : (dropped ≡ phase r.status) ⊎ (phase r.status ≡ asked)

pub mark_applied-Goes :
    (id : ℕ) (event : EventSource) (payload : Payload) (db : RotationDb)
    → ((r : Rotation) → In r db.rotations → r.id ≡ id → Applicable event.id r)
    → ((r s : Rotation)
        → In r db.rotations
        → In s db.rotations
        → r.id ≡ id
        → IsApart r s
        → by_applied s ≢ some event.id)
    → Goes db (mark_rotation_applied id event payload db)
unfolding mark_rotation_applied
mark_applied-Goes id event payload db ok free v =
    update_by_id-IsSound db.next_id id _ db.rotations
      (λ r m same.
        (let c = ok r m same in
          record {
            agrees = λ a. (refl, refl, c.not_cancelled);
            forward = record {
              id = refl;
              request = refl;
              onward = c.onward;
              application = λ e p. ap some (sym (c.its_event e p));
              cancellation = λ e p. p;
            };
          }))
      (λ r s m k same a. record {
        ids = a.ids;
        requests = a.requests;
        applications = λ e p q. free r s m k same a (q ∙ sym p);
        cancellations = a.cancellations;
      })
      v

pub mark_cancelled-Goes :
    (id : ℕ) (event : EventSource) (payload : Payload) (db : RotationDb)
    → ((r : Rotation) → In r db.rotations → r.id ≡ id → Cancellable event.id r)
    → ((r s : Rotation)
        → In r db.rotations
        → In s db.rotations
        → r.id ≡ id
        → IsApart r s
        → by_cancelled s ≢ some event.id)
    → Goes db (mark_rotation_cancelled id event payload db)
unfolding mark_rotation_cancelled
mark_cancelled-Goes id event payload db ok free v =
    update_by_id-IsSound db.next_id id _ db.rotations
      (λ r m same.
        (let c = ok r m same in
          record {
            agrees = λ a. (c.not_applied, refl, refl);
            forward = record {
              id = refl;
              request = refl;
              onward = c.onward;
              application = λ e p. p;
              cancellation = λ e p. ap some (sym (c.its_event e p));
            };
          }))
      (λ r s m k same a. record {
        ids = a.ids;
        requests = a.requests;
        applications = a.applications;
        cancellations = λ e p q. free r s m k same a (q ∙ sym p);
      })
      v

pub create_applied-Goes :
    (event : EventSource) (payload : Payload) (db : RotationDb)
    → find_by_event by_applied event.id db.rotations ≡ none
    → Goes db (create_applied_rotation event payload db)
unfolding create_applied_rotation
create_applied-Goes event payload db h v =
    append-IsSound db.next_id _ db.rotations (refl, refl, refl) refl
      (λ r m. record {
        ids = old_id db.next_id db.rotations r db.next_id v m refl;
        requests = λ e p q. ground arith;
        applications =
            λ e p q. find_by_event-none by_applied event.id db.rotations h r m (p ∙ sym q);
        cancellations = λ e p q. ground arith;
      })
      v

pub create_cancelled-Goes :
    (event : EventSource) (payload : Payload) (db : RotationDb)
    → find_by_event by_cancelled event.id db.rotations ≡ none
    → Goes db (create_cancelled_rotation event payload db)
unfolding create_cancelled_rotation
create_cancelled-Goes event payload db h v =
    append-IsSound db.next_id _ db.rotations (refl, refl, refl) refl
      (λ r m. record {
        ids = old_id db.next_id db.rotations r db.next_id v m refl;
        requests = λ e p q. ground arith;
        applications = λ e p q. ground arith;
        cancellations =
            λ e p q. find_by_event-none by_cancelled event.id db.rotations h r m (p ∙ sym q);
      })
      v
