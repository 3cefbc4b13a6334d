-- ===== src/KeyRotation/Events.antt =====
-- The readers of coreslot-key-rotation.ts: an event's attributes, its payload, and which event belongs
-- to which message.
use twilight_core_explorer.Common.{
  String, Bool, true, false, not, ◌&&◌, Option, none, some, List, [], ◌∷◌, length, str_eq, any,
  or_else, ◌==◌, if◌then◌else◌,
}
use twilight_core_explorer.Text.{
  Text, codes, eq_text, trim, OptionalNormalized, absent, present, malformed,
  normalize_optional_consensus_address,
}
use twilight_core_explorer.Text.Integers.{ℤ, big_int, print_int}
use twilight_core_explorer.Draw.Bytes.{to_decimal}
use twilight_core_explorer.Projection.Failure.{
  FailureKind, invalid_consensus_address, missing_required_payload,
}
use twilight_core_explorer.KeyRotation.Types.{Attribute, MessageSource, EventSource, Payload}

abbrev has_key : Text → Option Text → Bool
has_key key none = false
has_key key (some k) = not (length k == 0) && eq_text k key

-- A later attribute with the key takes the place of an earlier one; an empty key is passed over.
unfoldable pub attribute : Text → List Attribute → Option Text
attribute key [] = none
attribute key (a ∷ as') =
    let later = attribute key as' in
    if any (λ b. has_key key b.key) as' then later else if has_key key a.key then a.value else none

-- `readEventAttr`
unfoldable pub read_event_attr : EventSource → String → Option Text
unfolding attribute
read_event_attr event key = attribute (codes key) event.attributes

-- `parseSlotId`
unfoldable pub parse_slot_id : Option Text → Option ℤ
unfolding big_int trim
parse_slot_id none = none
parse_slot_id (some s) = if length (trim s) == 0 then none else big_int s

-- `readMessageSlotId`
unfoldable pub read_message_slot_id : MessageSource → Option Text
unfolding attribute
read_message_slot_id m =
    or_else (attribute (codes "slot_id") m.decoded) (attribute (codes "slotId") m.decoded)

-- `readMessageOperator`
unfoldable pub read_message_operator : MessageSource → Option Text
unfolding attribute
read_message_operator m = or_else (attribute (codes "operator") m.decoded) (
    or_else (attribute (codes "operator_address") m.decoded)
      (attribute (codes "operatorAddress") m.decoded))

pub data Extracted : Type 0 where
  extracted : Payload → Extracted
  refused : FailureKind → Extracted

-- a number that may be missing: `none` where `BigInt` throws
abbrev optional_int : Option Text → Option (Option ℤ)
optional_int none = some none
optional_int (some []) = some none
optional_int (some (c ∷ s)) = elim (big_int (c ∷ s)) [ none ↦ none | some n ↦ some (some n) ]

abbrev address_of : OptionalNormalized → Option (Option Text)
address_of absent = some none
address_of (present a) = some (some a)
address_of malformed = none

abbrev payload_from :
    ℤ
    → EventSource
    → (old new : Option (Option Text)) → (power effective : Option (Option ℤ)) → Extracted
payload_from slot event none new power effective = refused invalid_consensus_address
payload_from slot event (some old) none power effective = refused invalid_consensus_address
payload_from slot event (some old) (some new) none effective = refused missing_required_payload
payload_from slot event (some old) (some new) (some power) none = refused missing_required_payload
payload_from slot event (some old) (some new) (some power) (some effective) = extracted (record {
  slot_id = slot;
  operator_address = read_event_attr event "operator_address";
  old_consensus_address = old;
  new_consensus_address = new;
  power = power;
  effective_height = effective;
  reason = read_event_attr event "reason";
})

-- `extractRotationEventPayload`
unfoldable pub extract_rotation_event_payload : EventSource → ℤ → Extracted
unfolding read_event_attr normalize_optional_consensus_address big_int
extract_rotation_event_payload event slot =
    payload_from slot event
      (address_of
        (normalize_optional_consensus_address (read_event_attr event "old_consensus_address")))
      (address_of
        (normalize_optional_consensus_address (read_event_attr event "new_consensus_address")))
      (optional_int (read_event_attr event "power"))
      (optional_int (read_event_attr event "effective_height"))

abbrev absent_or : Option Text → Text → Bool
absent_or none expected = true
absent_or (some s) expected = eq_text s expected

abbrev pub in_tx : Option String → String → Bool
in_tx none hash = false
in_tx (some h) hash = str_eq h hash

-- `eventMatchesMessage`
unfoldable pub event_matches_message : EventSource → MessageSource → ℤ → Bool
unfolding read_event_attr to_decimal print_int
event_matches_message event message slot =
    in_tx event.tx_hash message.tx_hash
    && absent_or (read_event_attr event "msg_index") (to_decimal message.msg_index)
    && absent_or (read_event_attr event "slot_id") (print_int slot)

-- `isFailedTxBound`
abbrev pub is_failed_tx_bound : List String → Option String → Bool
is_failed_tx_bound successful none = false
is_failed_tx_bound successful (some h) = not (any (λ s. str_eq s h) successful)
