-- ===== src/KeyRotation/Failed.antt =====
-- Events of failed transactions against `projectCoreSlotKeyRotationHeight`.
use twilight_core_explorer.Common.{
  ℕ, String, ◌≡◌, refl, sym, ap, ◌∙◌, subst, inl, inr, Bool, true, false, not, ◌&&◌, ◌||◌, Option,
  none, some, List, [], ◌∷◌, keep_if, any, str_eq, str_eq_iff, ◌==◌, arith, Bool-cases, All,
  if◌then◌else◌,
}
use twilight_core_explorer.Text.Integers.{ℤ}
use twilight_core_explorer.Projection.Failure.{eq_opt_str}
use twilight_core_explorer.KeyRotation.Types.{MessageSource, EventSource, Chain, RotationDb}
use twilight_core_explorer.KeyRotation.Events.{
  in_tx, event_matches_message, is_failed_tx_bound, parse_slot_id, read_message_slot_id,
}
use twilight_core_explorer.Temporal.Lists.{keep_if_kept, keep_if_dropped}
use twilight_core_explorer.KeyRotation.Projection.{
  project_orphan_requested_event, project_applied_event, project_cancelled_event, RotationState,
  Used, is_used, candidates, message_on_slot, project_rotation_message,
}
use twilight_core_explorer.KeyRotation.Height.{
  is_failed, events_at, is_requested_type, is_rotated_type, is_rotation_cancel_event_type,
  successful_tx_hashes, rotation_messages, project_messages, project_events, project_all_events,
  no_events, begin_rotations, project_rotation_rows,
}

-- the events that are bound to no failed transaction
abbrev pub stands : List String → EventSource → Bool
stands successful e = not (is_failed successful e)

-- the chain without the events of failed transactions
abbrev pub without_failed : ℕ → Chain → Chain
without_failed height chain = record chain {
  events = keep_if (stands (successful_tx_hashes height chain)) chain.events;
}

keep_if-swap {ℓ} :
    {A : Type ℓ} (p q : A → Bool) (xs : List A)
    → keep_if p (keep_if q xs) ≡ keep_if q (keep_if p xs)
keep_if-swap p q [] = refl
keep_if-swap p q (x ∷ xs) = ground (arith, keep_if-swap p q xs)

keep_if-within {ℓ} :
    {A : Type ℓ} (p q : A → Bool)
    → ((x : A) → p x ≡ true → q x ≡ true)
    → (xs : List A) → keep_if p (keep_if q xs) ≡ keep_if p xs
keep_if-within p q h [] = refl
keep_if-within p q h (x ∷ xs) = ground (arith, keep_if-within p q h xs, h x)

-- events of a successful transaction are not passed over
bound_stands :
    (successful : List String) (o : Option String) (tx : String)
    → in_tx o tx ≡ true
    → any (λ s. str_eq s tx) successful ≡ true
    → is_failed_tx_bound successful o ≡ false
bound_stands successful none tx e t = refl
bound_stands successful (some h) tx e t =
    subst (λ x. is_failed_tx_bound successful (some x) ≡ false) (sym ((str_eq_iff h tx).0 e))
      (rw t refl)

matches_stand :
    (successful : List String) (message : MessageSource) (slot : ℤ) (ids : List ℕ) (e : EventSource)
    → any (λ s. str_eq s message.tx_hash) successful ≡ true
    → (not (is_used ids e) && event_matches_message e message slot) ≡ true
    → stands successful e ≡ true
unfolding event_matches_message
matches_stand successful message slot ids e t h = ap not (
    bound_stands successful e.tx_hash message.tx_hash
      (second (is_used ids e) (in_tx e.tx_hash message.tx_hash) _ _ h) t)
  where
    second : (a b c d : Bool) → (not a && (b && c && d)) ≡ true → b ≡ true
    second a b c d h = ground arith

candidates-stand :
    (successful : List String) (message : MessageSource) (slot : ℤ) (ids : List ℕ)
    (es : List EventSource)
    → any (λ s. str_eq s message.tx_hash) successful ≡ true
    → candidates message slot ids (keep_if (stands successful) es) ≡ candidates message slot ids es
candidates-stand successful message slot ids es t =
    keep_if-within _ (stands successful) (λ e h. matches_stand successful message slot ids e t h) es

events-stand :
    (successful : List String) (project : EventSource → RotationState → RotationState)
    (passed_over : EventSource → Bool)
    → ((e : EventSource) → is_failed successful e ≡ true → passed_over e ≡ true)
    → (es : List EventSource) (s : RotationState)
    → project_events project passed_over (keep_if (stands successful) es) s
      ≡ project_events project passed_over es s
unfolding project_events
events-stand successful project passed_over h [] s = refl
events-stand successful project passed_over h (e ∷ es) s =
    elim (Bool-cases (is_failed successful e)) [
      | inl t ↦
          ap (λ l. project_events project passed_over l s)
            (keep_if_dropped (stands successful) e es (ap not t))
          ∙ events-stand successful project passed_over h es s
          ∙ sym (
              ap (λ b. project_events project passed_over es (if b then s else project e s))
                (h e t))
      | inr t ↦
          ap (λ l. project_events project passed_over l s)
            (keep_if_kept (stands successful) e es (ap not t))
          ∙ events-stand successful project passed_over h es
              (if passed_over e then s else project e s)
    ]

message_on_slot-stand :
    (successful : List String) (es fs : List EventSource) (m : MessageSource) (slot : Option ℤ)
    (u : Used × RotationState)
    → any (λ s. str_eq s m.tx_hash) successful ≡ true
    → message_on_slot (keep_if (stands successful) es) (keep_if (stands successful) fs) m slot u
      ≡ message_on_slot es fs m slot u
message_on_slot-stand successful es fs m none (used, s) t = refl
message_on_slot-stand successful es fs m (some slot) (used, s) t =
    rw
      (
        candidates-stand successful m slot used.requested_ids es t,
        candidates-stand successful m slot used.rotated_ids fs t,
      )
      refl

messages-stand :
    (successful : List String) (es fs : List EventSource) (ms : List MessageSource)
    (u : Used × RotationState)
    → All (λ m. any (λ s. str_eq s m.tx_hash) successful ≡ true) ms
    → project_messages (keep_if (stands successful) es) (keep_if (stands successful) fs) ms u
      ≡ project_messages es fs ms u
unfolding project_messages project_rotation_message
messages-stand successful es fs [] u a = refl
messages-stand successful es fs (m ∷ ms) u a =
    let slot = parse_slot_id (read_message_slot_id m) in
    messages-stand successful es fs ms
      (message_on_slot (keep_if (stands successful) es) (keep_if (stands successful) fs) m slot u)
      a.1
    ∙ ap (project_messages es fs ms) (message_on_slot-stand successful es fs m slot u a.0)

messages_successful :
    (height : ℕ) (successful : List String) (ms : List MessageSource)
    → All
        (λ m. any (λ s. str_eq s m.tx_hash) successful ≡ true)
        (keep_if
          (λ m.
            m.height == height
            && any (λ h. str_eq h m.tx_hash) successful
            && eq_opt_str m.module_name (some "coreslot")
            && str_eq m.type_url "/twilight.coreslot.v1.MsgRotateConsensusKey")
          ms)
messages_successful height successful [] = tt
messages_successful height successful (m ∷ ms) =
    ground (arith, messages_successful height successful ms)

all_events-stand :
    (successful : List String) (es fs gs : List EventSource) (u : Used × RotationState)
    → project_all_events successful
        (keep_if (stands successful) es)
        (keep_if (stands successful) fs)
        (keep_if (stands successful) gs)
        u
      ≡ project_all_events successful es fs gs u
all_events-stand successful es fs gs (used, s) =
    let cancels : EventSource → Bool = is_failed successful in
    let applies : EventSource → Bool = λ e. is_used used.rotated_ids e || is_failed successful e in
    let orphans : EventSource → Bool =
      λ e. is_used used.requested_ids e || is_failed successful e in
    events-stand successful project_cancelled_event cancels (λ e t. t) gs _
    ∙ ap (project_events project_cancelled_event cancels gs) (
        events-stand successful project_applied_event applies
          (λ e t. late (is_used used.rotated_ids e) t) fs _
        ∙ ap (project_events project_applied_event applies fs) (
            events-stand successful project_orphan_requested_event orphans
              (λ e t. late (is_used used.requested_ids e) t) es s))
  where
    late : (a : Bool) {b : Bool} → b ≡ true → (a || b) ≡ true
    late a t = ground arith

-- A failed transaction leaves no trace: a height writes the same rows where the events that are bound to
-- failed transactions are taken out of the chain.
pub project_rows-without_failed :
    (height : ℕ) (chain : Chain) (db : RotationDb)
    → project_rotation_rows height (without_failed height chain) db
      ≡ project_rotation_rows height chain db
unfolding project_rotation_rows successful_tx_hashes rotation_messages
project_rows-without_failed height chain db =
    let successful = successful_tx_hashes height chain in
    let ms = rotation_messages height successful chain in
    let es = events_at height is_requested_type chain in
    let fs = events_at height is_rotated_type chain in
    let gs = events_at height is_rotation_cancel_event_type chain in
    let start : Used × RotationState = (no_events, begin_rotations height db) in
    rw
      (
        keep_if-swap (λ e. e.height == height && is_requested_type e.event_type) (stands successful)
            chain.events,
        keep_if-swap (λ e. e.height == height && is_rotated_type e.event_type) (stands successful)
            chain.events,
        keep_if-swap (λ e. e.height == height && is_rotation_cancel_event_type e.event_type)
            (stands successful) chain.events,
      )
      (all_events-stand successful es fs gs (
          project_messages (keep_if (stands successful) es) (keep_if (stands successful) fs) ms
            start)
        ∙ ap (project_all_events successful es fs gs) (
            messages-stand successful es fs ms start
              (messages_successful height successful chain.messages)))
