-- ===== src/KeyRotation/Invariant/Writers.antt =====
-- Each row writer of coreslot-key-rotation.ts keeps the table sound, and rows go forward.
use twilight_core_explorer.Common.{
  ℕ, ◌+◌, ◌<◌, ◌≡◌, ◌≢◌, inl, inr, refl, sym, ◌∙◌, subst, Option, none, some, List, [], ◌∷◌, arith,
  Option-cases,
}
use twilight_core_explorer.Text.{Text}
use twilight_core_explorer.Temporal.Lists.{In, All-In}
use twilight_core_explorer.Projection.Failure.{FailureKind}
use twilight_core_explorer.KeyRotation.Types.{
  MessageSource, EventSource, Rotation, Payload, RotationDb,
}
use twilight_core_explorer.KeyRotation.Rows.{
  Key, by_request, by_applied, by_cancelled, find_by_event, upsert_by_event, update_by_id,
  immediate_fields, upsert_requested_rotation, upsert_immediate_applied_rotation,
}
use twilight_core_explorer.KeyRotation.Columns.{blank}
use twilight_core_explorer.KeyRotation.Slots.{set_address, update_projection_consensus_address}
use twilight_core_explorer.KeyRotation.Failures.{create_rotation_failure}
use twilight_core_explorer.KeyRotation.Invariant.{
  Phase, asked, taken, dropped, phase, Agrees, RowAgrees, IsApart, IsSound, Grown, Goes, same_id,
}
use twilight_core_explorer.KeyRotation.Invariant.Update.{
  Writes, StaysApart, IsSound-widen, update_by_id-IsSound, append-IsSound,
}
use twilight_core_explorer.KeyRotation.Invariant.Find.{
  find_by_event-some, find_by_event-none, upsert_by_event-insert, upsert_by_event-update,
}

-- a row of the table has an id below the sequence's next one
pub old_id :
    (n : ℕ) (rs : List Rotation) (r : Rotation) (k : ℕ) → IsSound n rs → In r rs → k ≡ n → r.id ≢ k
old_id n rs r k v m i e =
    let (a, lt) = All-In (λ r. RowAgrees r × (r.id < n)) r rs v.rows m in omega arith

pub row_agrees : (n : ℕ) (rs : List Rotation) (r : Rotation) → IsSound n rs → In r rs → RowAgrees r
row_agrees n rs r v m = (All-In (λ r. RowAgrees r × (r.id < n)) r rs v.rows m).0

-- `upsert` by an event, where the update keeps the row's id and events
pub upsert_by_event-IsSound :
    (n : ℕ) (key : Key) (e : ℕ) (new : Rotation) (f : Rotation → Rotation) (rs : List Rotation)
    → RowAgrees new
    → new.id ≡ n
    → ((r : Rotation) → r.id ≢ new.id → key r ≢ some e → IsApart r new)
    → ((r : Rotation) → In r rs → key r ≡ some e → Writes f r)
    → ((r s : Rotation) → StaysApart f r s)
    → IsSound n rs
    → IsSound (n + 1) (upsert_by_event key e new f rs) × Grown rs (upsert_by_event key e new f rs)
upsert_by_event-IsSound n key e new f rs a i apart w stays v =
    elim (Option-cases (find_by_event key e rs)) [
      | inl h ↦ rw (upsert_by_event-insert key e new f rs h) (
          append-IsSound n new rs a i
            (λ r m. apart r (old_id n rs r new.id v m i) (find_by_event-none key e rs h r m)) v)
      | inr (r, h) ↦
          (let here = find_by_event-some key e rs r h in
            let done =
              update_by_id-IsSound n r.id f rs
                (λ s m same.
                  subst (Writes f) (same_id rs r s v.apart here.0 m (sym same)) (w r here.0 here.1))
                (λ s t m k same. stays s t) v in
            rw (upsert_by_event-update key e new f rs r v.apart h)
              (IsSound-widen n (update_by_id r.id f rs) done.0, done.1))
    ]

pub upsert_requested-Goes :
    (message : Option MessageSource) (event : EventSource) (payload : Payload)
    (operator : Option Text) (db : RotationDb)
    → Goes db (upsert_requested_rotation message event payload operator db)
unfolding upsert_requested_rotation
upsert_requested-Goes message event payload operator db v =
    upsert_by_event-IsSound db.next_id by_request event.id _ _ db.rotations (refl, refl) refl
      (λ r i k. record {
        ids = i;
        requests = λ e p q. k (p ∙ sym q);
        applications = λ e p q. ground arith;
        cancellations = λ e p q. ground arith;
      })
      (λ r m k. record {
        agrees = λ a. a;
        forward = record {
          id = refl;
          request = refl;
          onward = inl refl;
          application = λ e p. p;
          cancellation = λ e p. p;
        };
      })
      (λ r s a. record {
        ids = a.ids;
        requests = a.requests;
        applications = a.applications;
        cancellations = a.cancellations;
      })
      v

none-some : {e : ℕ} → none ≡ some e → ⊥
none-some p = cc

-- a row with an applied event has been taken
taken_by :
    (p : Phase) (a c at_a at_c : Option ℕ) (e : ℕ)
    → Agrees p a c at_a at_c
    → a ≡ some e
    → (p ≡ taken) × (c ≡ none)
taken_by asked a c at_a at_c e h k = absurd (none-some (sym h.0 ∙ k))
taken_by taken a c at_a at_c e h k = (refl, h.2)
taken_by dropped a c at_a at_c e h k = absurd (none-some (sym h.0 ∙ k))

dropped_by :
    (p : Phase) (a c at_a at_c : Option ℕ) (e : ℕ)
    → Agrees p a c at_a at_c
    → c ≡ some e
    → (p ≡ dropped) × (a ≡ none)
dropped_by asked a c at_a at_c e h k = absurd (none-some (sym h.1 ∙ k))
dropped_by taken a c at_a at_c e h k = absurd (none-some (sym h.2 ∙ k))
dropped_by dropped a c at_a at_c e h k = (refl, h.0)

pub RowAgrees-taken :
    (r : Rotation) (e : ℕ)
    → RowAgrees r
    → by_applied r ≡ some e
    → (phase r.status ≡ taken) × (by_cancelled r ≡ none)
RowAgrees-taken r e h k =
    taken_by (phase r.status) r.source_applied_event_id r.source_cancelled_event_id r.applied_height
      r.cancelled_height e h k

pub RowAgrees-dropped :
    (r : Rotation) (e : ℕ)
    → RowAgrees r
    → by_cancelled r ≡ some e
    → (phase r.status ≡ dropped) × (by_applied r ≡ none)
RowAgrees-dropped r e h k =
    dropped_by (phase r.status) r.source_applied_event_id r.source_cancelled_event_id
      r.applied_height r.cancelled_height e h k

pub update_address-Goes :
    (event : EventSource) (payload : Payload) (message : Option MessageSource)
    (operator : Option Text) (a b : RotationDb)
    → Goes a b
    → Goes a (update_projection_consensus_address event payload message operator b)
unfolding update_projection_consensus_address
update_address-Goes event payload message operator a b g = at_address payload.new_consensus_address
  where
    at_address : (o : Option Text) → Goes a (set_address event payload message operator o b)
    at_address none = g
    at_address (some []) = g
    at_address (some (c ∷ s)) = g

pub create_failure-Goes :
    (message : Option MessageSource) (event : Option EventSource) (kind : FailureKind)
    (a b : RotationDb)
    → Goes a b
    → Goes a (create_rotation_failure message event kind b)
unfolding create_rotation_failure
create_failure-Goes message event kind a b g = g

upsert_immediate_rows :
    (message : MessageSource) (event : EventSource) (payload : Payload) (operator : Option Text)
    (db : RotationDb)
    → IsSound db.next_id db.rotations
    → let fields = immediate_fields message event payload operator in
      let new = blank db.next_id payload.slot_id in
      let rs =
        upsert_by_event by_applied event.id
          (fields (record new { source_applied_event_id = some event.id }))
          fields
          db.rotations in
      IsSound (db.next_id + 1) rs × Grown db.rotations rs
upsert_immediate_rows message event payload operator db v =
    upsert_by_event-IsSound db.next_id by_applied event.id _ _ db.rotations (refl, refl, refl) refl
      (λ r i k. record {
        ids = i;
        requests = λ e p q. ground arith;
        applications = λ e p q. k (p ∙ sym q);
        cancellations = λ e p q. ground arith;
      })
      (λ r m k.
        (let t = RowAgrees-taken r event.id (row_agrees db.next_id db.rotations r v m) k in
          record {
            agrees = λ a. (rw k refl, refl, t.1);
            forward = record {
              id = refl;
              request = refl;
              onward = inl (sym t.0);
              application = λ e p. p;
              cancellation = λ e p. p;
            };
          }))
      (λ r s a. record {
        ids = a.ids;
        requests = a.requests;
        applications = a.applications;
        cancellations = a.cancellations;
      })
      v

pub upsert_immediate-Goes :
    (message : MessageSource) (event : EventSource) (payload : Payload) (operator : Option Text)
    (db : RotationDb)
    → Goes db (upsert_immediate_applied_rotation message event payload operator db)
unfolding upsert_immediate_applied_rotation
upsert_immediate-Goes message event payload operator db =
    update_address-Goes event payload (some message) _ db _
      (upsert_immediate_rows message event payload operator db)
