-- ===== src/Projection/Failure.antt =====
-- Failure rows of the projections (apps/indexer/src/projections/types.ts). A row carries the parts of
-- its unique key. The error text and the raw payload are left out.
use twilight_core_explorer.Common.{
  ℕ, String, Bool, true, false, not, ◌&&◌, Option, none, some, List, [], ◌∷◌, ◌==◌, keep_if, str_eq,
  if◌then◌else◌,
}

pub data FailureKind : Type 0 where
  genesis_unavailable genesis_coreslot_malformed invalid_consensus_address : FailureKind
  temporal_window_conflict temporal_window_ambiguous missing_activation_window : FailureKind
  effective_height_invalid invalid_slot_id unknown_semantic_type : FailureKind
  ambiguous_event missing_event missing_message missing_request : FailureKind
  rotation_correlation_failed missing_required_payload : FailureKind

abbrev kind_code : FailureKind → ℕ
kind_code genesis_unavailable = 0
kind_code genesis_coreslot_malformed = 1
kind_code invalid_consensus_address = 2
kind_code temporal_window_conflict = 3
kind_code temporal_window_ambiguous = 4
kind_code missing_activation_window = 5
kind_code effective_height_invalid = 6
kind_code invalid_slot_id = 7
kind_code unknown_semantic_type = 8
kind_code ambiguous_event = 9
kind_code missing_event = 10
kind_code missing_message = 11
kind_code missing_request = 12
kind_code rotation_correlation_failed = 13
kind_code missing_required_payload = 14

abbrev pub eq_kind : FailureKind → FailureKind → Bool
eq_kind a b = kind_code a == kind_code b

pub record Failure : Type 0 where
  pub projection_name : String
  pub failure_kind : FailureKind
  pub source_height : ℕ
  pub source_tx_hash : Option String
  pub source_msg_index : Option ℕ
  pub source_message_id : Option ℕ
  pub source_event_id : Option ℕ
  pub type_url : Option String
  pub event_type : Option String
  pub resolved : Bool

abbrev pub eq_opt_nat : Option ℕ → Option ℕ → Bool
eq_opt_nat none none = true
eq_opt_nat (some a) (some b) = a == b
eq_opt_nat _ _ = false

abbrev pub eq_opt_str : Option String → Option String → Bool
eq_opt_str none none = true
eq_opt_str (some a) (some b) = str_eq a b
eq_opt_str _ _ = false

-- Two rows have one key, part by part (`buildProjectionFailureKey` joins the parts by ':').
unfoldable pub same_key : Failure → Failure → Bool
same_key a b =
    str_eq a.projection_name b.projection_name
    && eq_kind a.failure_kind b.failure_kind
    && a.source_height == b.source_height
    && eq_opt_str a.source_tx_hash b.source_tx_hash
    && eq_opt_nat a.source_msg_index b.source_msg_index
    && eq_opt_nat a.source_message_id b.source_message_id
    && eq_opt_nat a.source_event_id b.source_event_id
    && eq_opt_str a.type_url b.type_url
    && eq_opt_str a.event_type b.event_type

-- prisma `upsert` by the failure key; the update writes the row anew, unresolved.
unfoldable pub upsert_failure : Failure → List Failure → List Failure
unfolding same_key
upsert_failure f [] = f ∷ []
upsert_failure f (g ∷ gs) = if same_key g f then f ∷ gs else g ∷ upsert_failure f gs

-- prisma `deleteMany`
abbrev pub delete_where : (Failure → Bool) → List Failure → List Failure
delete_where p = keep_if (λ f. not (p f))
