-- ===== src/Temporal/Invariant/Events.antt =====
-- The upstream events keep the table consistent, each at the height at which it takes effect.
use twilight_core_explorer.Common.{
  Bool-cases, inl, inr, Bool-cases, subst, ℕ, ◌≤◌, ◌≡◌, refl, Bool, true, false, ◌||◌, Option, none,
  some, arith, str_eq, if◌then◌else◌,
}
use twilight_core_explorer.Text.{
  Text, Normalized, ok, invalid, OptionalNormalized, absent, present, malformed,
}
use twilight_core_explorer.Projection.Failure.{FailureKind}
use twilight_core_explorer.Temporal.Types.{
  Db, LifecycleSource, RotationSource, OpenWindowInput, CloseWindowInput, Counters,
}
use twilight_core_explorer.Temporal.Window.{
  close_active_windows, Opened, opened, refused, Closed, closed_all, not_closed,
}
use twilight_core_explorer.Temporal.Events.{
  State, count_opened, count_closed, membership_height_from_validator_update,
  derive_lifecycle_validator_update_height, derive_rotation_validator_update_height,
  activation_input, project_activated, project_slot_event, on_slot, project_lifecycle_event,
  deactivation_input, open_after_close, open_rotated, rotate, project_old_address, project_applied,
  project_rotation, rotation_open_input, rotation_close_input, lifecycle_failure, rotation_failure,
}
use twilight_core_explorer.Temporal.Invariant.{Past, IsConsistent, IsConsistent-mono}
use twilight_core_explorer.Temporal.Invariant.Open.{failure-IsConsistent}
use twilight_core_explorer.Temporal.Invariant.Create.{open-IsConsistent}
use twilight_core_explorer.Temporal.Invariant.CloseActive.{close-active-IsConsistent}

-- The height from which a lifecycle event counts.
abbrev pub event_horizon : LifecycleSource → ℕ
event_horizon event =
    membership_height_from_validator_update (derive_lifecycle_validator_update_height event)

-- The horizon after a lifecycle event. A registration changes no window and leaves it.
abbrev pub lifecycle_horizon : ℕ → LifecycleSource → ℕ
lifecycle_horizon h event =
    if str_eq event.event_type "coreslot_registered" then h else event_horizon event

-- The height from which a rotation counts; one with no height changes no window.
abbrev pub update_horizon : ℕ → Option ℕ → ℕ
update_horizon h none = h
update_horizon h (some update_height) = membership_height_from_validator_update update_height

abbrev pub applied_horizon : ℕ → RotationSource → ℕ
applied_horizon h rotation = update_horizon h (derive_rotation_validator_update_height rotation)

-- The horizon after a rotation. One that is requested or cancelled changes no window and leaves it.
abbrev pub rotation_horizon : ℕ → RotationSource → ℕ
rotation_horizon h rotation =
    if str_eq rotation.status "requested" || str_eq rotation.status "cancelled"
    then h
    else applied_horizon h rotation

abbrev Kept : Past → ℕ → State → Type 0
Kept past h s = IsConsistent past h s.1

count_opened-Kept :
    {past : Past} (h : ℕ) (c : Counters) (r : Opened × Db)
    → IsConsistent past h r.1
    → Kept past h (count_opened c r)
count_opened-Kept h c (opened true, db) k = k
count_opened-Kept h c (opened false, db) k = k
count_opened-Kept h c (refused, db) k = k

count_closed-Kept :
    {past : Past} (h : ℕ) (c : Counters) (r : Closed × Db)
    → IsConsistent past h r.1
    → Kept past h (count_closed c r)
count_closed-Kept h c (closed_all n, db) k = k
count_closed-Kept h c (not_closed, db) k = k

module _ {past : Past} (h : ℕ) (event : LifecycleSource) (c : Counters) (db : Db)
    (k : IsConsistent past h db) where
  failed :
      (to : ℕ) (kind : FailureKind) → h ≤ to → Kept past to (lifecycle_failure event kind (c, db))
  failed to kind le = failure-IsConsistent to db _ _ _ kind (IsConsistent-mono h to db le k)

  activated :
      (slot : ℕ) (a : Normalized)
      → h ≤ event_horizon event
      → Kept past (event_horizon event) (project_activated event slot a (c, db))
  activated slot invalid le = failed _ _ le
  activated slot (ok address) le =
      count_opened-Kept _ c _ (open-IsConsistent h (activation_input event slot address) db le k)

  slot_event :
      (slot : ℕ)
      → h ≤ lifecycle_horizon h event
      → Kept past (lifecycle_horizon h event) (project_slot_event event slot (c, db))
  slot_event slot le = elim (Bool-cases (str_eq event.event_type "coreslot_registered")) [
    | inl e ↦ rw e k
    | inr n ↦
        (let late : h ≤ event_horizon event =
            subst (λ b. h ≤ (if b then h else event_horizon event)) n le in
          rw n (elim (Bool-cases (str_eq event.event_type "coreslot_activated")) [
            | inl e ↦ rw e (activated slot _ late)
            | inr e ↦
                rw e
                  (elim (Bool-cases (
                    str_eq event.event_type "coreslot_inactivated"
                    || str_eq event.event_type "coreslot_suspended"
                    || str_eq event.event_type "coreslot_removed")) [
                      | inl e ↦ rw e (
                          count_closed-Kept _ c _
                            (close-active-IsConsistent h (deactivation_input event slot) db late k))
                      | inr e ↦ rw e (failed _ _ late)
                    ])
          ]))
  ]

  on_slot-Kept :
      (slot : Option ℕ)
      → h ≤ lifecycle_horizon h event
      → Kept past (lifecycle_horizon h event) (on_slot event slot (c, db))
  on_slot-Kept none le = failed _ _ le
  on_slot-Kept (some slot) le = slot_event slot le

  pub lifecycle-IsConsistent :
      h ≤ lifecycle_horizon h event
      → IsConsistent past (lifecycle_horizon h event) (project_lifecycle_event event (c, db)).1
  unfolding project_lifecycle_event
  lifecycle-IsConsistent le = on_slot-Kept event.slot_id le

open_after_close-Kept :
    {past : Past} (input : OpenWindowInput) (c : Counters) (r : Closed × Db)
    → IsConsistent past input.effective_from_height r.1
    → Kept past input.effective_from_height (open_after_close input c r)
open_after_close-Kept input c (not_closed, db) k = k
open_after_close-Kept input c (closed_all n, db) k =
    count_opened-Kept _ _ _ (open-IsConsistent input.effective_from_height input db (omega arith) k)

open_rotated-Kept :
    {past : Past} (h : ℕ) (input : OpenWindowInput) (close : CloseWindowInput) (there : Bool)
    (c : Counters) (db : Db)
    → h ≤ input.effective_from_height
    → close.close.effective_to_height ≡ input.effective_from_height
    → IsConsistent past h db
    → Kept past input.effective_from_height (open_rotated input close there (c, db))
open_rotated-Kept {past} h input close true c db le e k =
    count_opened-Kept _ c _ (open-IsConsistent h input db le k)
open_rotated-Kept {past} h input close false c db le e k = open_after_close-Kept input c _ (
    subst (λ t. IsConsistent past t (close_active_windows close db).1) e
      (close-active-IsConsistent h close db (omega arith) k))

rotate_at-Kept :
    {past : Past} (h height : ℕ) (r : RotationSource) (c : Counters) (db : Db) (new : Text)
    (old : Option Text) (update : Option ℕ)
    → h ≤ update_horizon h update
    → IsConsistent past h db
    → Kept past (update_horizon h update) (rotate r height new old update (c, db))
rotate_at-Kept h height r c db new old none le k = failure-IsConsistent h db _ _ _ _ k
rotate_at-Kept h height r c db new old (some update) le k =
    open_rotated-Kept h (rotation_open_input r height new update)
      (rotation_close_input r height old update) _ c db le refl k

module _ {past : Past} (h height : ℕ) (r : RotationSource) (c : Counters) (db : Db)
    (k : IsConsistent past h db) where
  rotation_failed :
      (at : ℕ) (kind : FailureKind)
      → h ≤ applied_horizon h r
      → Kept past (applied_horizon h r) (rotation_failure r at kind (c, db))
  rotation_failed at kind le =
      failure-IsConsistent (applied_horizon h r) db _ _ _ kind
        (IsConsistent-mono h (applied_horizon h r) db le k)

  rotate-Kept :
      (new : Text) (old : Option Text)
      → h ≤ applied_horizon h r
      → Kept past
          (applied_horizon h r)
          (rotate r height new old (derive_rotation_validator_update_height r) (c, db))
  rotate-Kept new old le =
      rotate_at-Kept h height r c db new old (derive_rotation_validator_update_height r) le k

  old-Kept :
      (new : Text) (old : OptionalNormalized)
      → h ≤ applied_horizon h r
      → Kept past (applied_horizon h r) (project_old_address r height new old (c, db))
  old-Kept new malformed le = rotation_failed _ _ le
  old-Kept new absent le = rotate-Kept new none le
  old-Kept new (present old) le = rotate-Kept new (some old) le

  applied-Kept :
      (new : Normalized)
      → h ≤ applied_horizon h r
      → Kept past (applied_horizon h r) (project_applied r height new (c, db))
  applied-Kept invalid le = rotation_failed _ _ le
  applied-Kept (ok new) le = old-Kept new _ le

  pub rotation-IsConsistent :
      h ≤ rotation_horizon h r
      → IsConsistent past (rotation_horizon h r) (project_rotation height r (c, db)).1
  unfolding project_rotation
  rotation-IsConsistent le =
      elim (Bool-cases (str_eq r.status "requested" || str_eq r.status "cancelled")) [
        | inl e ↦ rw e k
        | inr n ↦
            (let late : h ≤ applied_horizon h r =
                subst (λ b. h ≤ (if b then h else applied_horizon h r)) n le in
              rw n
                (elim (Bool-cases
                  (str_eq r.status "applied" || str_eq r.status "immediate_applied")) [
                    | inl e ↦ rw e (applied-Kept _ late)
                    | inr e ↦ rw e (rotation_failed _ _ late)
                  ]))
      ]
