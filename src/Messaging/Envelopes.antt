-- ===== src/Messaging/Envelopes.antt =====
-- `_serialize_event` and `_deserialize_event` of app/messaging/service.py.
use wanderra_os.Base.{ℕ, zero, Bool, true, false, Option, none, some, [], ◌∷◌, if◌then◌else◌}
use wanderra_os.Base.Text.{Text, codes, text_eq}
use wanderra_os.Base.Json.{
  Json, null, boolean, integer, float, string, array, object, Fields, end, field, decimal, str_uuid,
  uuid_or_null, nil,
}
use wanderra_os.Base.Numerals.{parse_int, parse_uuid}
use wanderra_os.Base.Result.{Result, ok, ◌>>=◌, some_or}
use wanderra_os.Messaging.Contracts.{MessagingFailure, EventEnvelope, event_envelope}
use wanderra_os.Messaging.Models.{MessagingContext}

-- `dict[key]`
unfoldable pub lookup : Text → Fields → Option Json
lookup key end = none
lookup key (field k v fs) = if text_eq k key then some v else lookup key fs

-- Whether a value counts as true.
unfoldable pub is_truthy : Json → Bool
is_truthy null = false
is_truthy (boolean b) = b
is_truthy (integer _ zero) = false
is_truthy (string []) = false
is_truthy (array nil) = false
is_truthy (object end) = false
is_truthy (float repr) =
    if text_eq repr (codes "0.0")
    then false
    else if text_eq repr (codes "-0.0")
    then false
    else true
is_truthy _ = true

module _ (m : MessagingContext) where
  -- `_serialize_event`
  unfoldable pub serialize_event : EventEnvelope → Fields
  serialize_event e = field (codes "event_id") (string (str_uuid e.event_id)) (
      field (codes "event_type") (string e.event_type) (
        field (codes "schema_major") (integer false e.schema_major) (
          field (codes "schema_minor") (integer false e.schema_minor) (
            field (codes "workspace_id") (string (str_uuid e.workspace_id)) (
              field (codes "aggregate_type") (string e.aggregate_type) (
                field (codes "aggregate_id") (string (str_uuid e.aggregate_id)) (
                  field (codes "aggregate_sequence") (integer false e.aggregate_sequence) (
                    field (codes "actor_id") (uuid_or_null e.actor_id) (
                      field (codes "correlation_id") (string e.correlation_id) (
                        field (codes "occurred_at") (string (m.isoformat e.occurred_at)) (
                          field (codes "classification") (string e.classification) (
                            field (codes "payload") (object e.payload) (
                              field (codes "causation_id") (uuid_or_null e.causation_id) (
                                field (codes "delegation_id") (uuid_or_null e.delegation_id)
                                  end))))))))))))))

  -- `str(value)`
  unfoldable pub str_of : Json → Text
  str_of null = codes "None"
  str_of (boolean true) = codes "True"
  str_of (boolean false) = codes "False"
  str_of (integer negative n) = if negative then 45 ∷ decimal n else decimal n
  str_of (float repr) = repr
  str_of (string s) = s
  str_of other = m.str_container other

  abbrev pub malformed_or {ℓ} : {A : Type ℓ} → Option A → Result MessagingFailure A
  malformed_or o = some_or o MessagingFailure.malformed

  -- `str(value[key])`
  unfoldable pub text_at : Text → Fields → Result MessagingFailure Text
  unfolding str_of lookup
  text_at key value = do found ← malformed_or (lookup key value); ok (str_of found)

  -- `uuid.UUID(str(value[key]))`
  unfoldable pub uuid_at : Text → Fields → Result MessagingFailure ℕ
  unfolding text_at
  uuid_at key value = do s ← text_at key value; malformed_or (parse_uuid s)

  -- `int(str(value[key]))`
  unfoldable pub int_at : Text → Fields → Result MessagingFailure ℕ
  unfolding text_at
  int_at key value = do s ← text_at key value; malformed_or (parse_int 10 s)

  unfoldable pub uuid_if : Option Json → Result MessagingFailure (Option ℕ)
  unfolding str_of is_truthy
  uuid_if none = ok none
  uuid_if (some found) = elim (is_truthy found) [
    | true ↦ do id ← malformed_or (parse_uuid (str_of found)); ok (some id)
    | false ↦ ok none
  ]

  -- `uuid.UUID(str(value[key])) if value.get(key) else None`
  unfoldable pub optional_uuid_at : Text → Fields → Result MessagingFailure (Option ℕ)
  unfolding uuid_if lookup
  optional_uuid_at key value = uuid_if (lookup key value)

  -- `dict(value)` of a dictionary. A list of pairs would also do for Python.
  abbrev pub dict_of : Json → Option Fields
  dict_of (object fs) = some fs
  dict_of _ = none

  -- `_deserialize_event`
  unfoldable pub deserialize_event : Fields → Result MessagingFailure EventEnvelope
  unfolding text_at uuid_at int_at optional_uuid_at
  deserialize_event value = do
    event_id ← uuid_at (codes "event_id") value
    event_type ← text_at (codes "event_type") value
    schema_major ← int_at (codes "schema_major") value
    schema_minor ← int_at (codes "schema_minor") value
    workspace_id ← uuid_at (codes "workspace_id") value
    aggregate_type ← text_at (codes "aggregate_type") value
    aggregate_id ← uuid_at (codes "aggregate_id") value
    aggregate_sequence ← int_at (codes "aggregate_sequence") value
    actor_id ← optional_uuid_at (codes "actor_id") value
    correlation_id ← text_at (codes "correlation_id") value
    occurred_text ← text_at (codes "occurred_at") value
    occurred_at ← malformed_or (m.fromisoformat occurred_text)
    classification ← text_at (codes "classification") value
    payload_value ← malformed_or (lookup (codes "payload") value)
    payload ← malformed_or (dict_of payload_value)
    causation_id ← optional_uuid_at (codes "causation_id") value
    delegation_id ← optional_uuid_at (codes "delegation_id") value
    event_envelope (record {
      event_id = event_id;
      event_type = event_type;
      schema_major = schema_major;
      schema_minor = schema_minor;
      workspace_id = workspace_id;
      aggregate_type = aggregate_type;
      aggregate_id = aggregate_id;
      aggregate_sequence = aggregate_sequence;
      actor_id = actor_id;
      correlation_id = correlation_id;
      occurred_at = occurred_at;
      classification = classification;
      payload = payload;
      causation_id = causation_id;
      delegation_id = delegation_id;
    })
