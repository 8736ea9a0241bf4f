-- ===== src/Messaging/RoundTrip.antt =====
-- `_serialize_event` and `_deserialize_event` of app/messaging/service.py: an accepted event is read
-- back as it was written.
use wanderra_os.Base.{ℕ, ◌<◌, ◌≡◌, refl, ap, ◌∙◌, false, Option, none, some}
use wanderra_os.Base.Text.{Text, codes, text_eq}
use wanderra_os.Base.Json.{integer, string, Fields, str_uuid, uuid_or_null, hex_digits}
use wanderra_os.Base.Numerals.{parse_int, parse_uuid}
use wanderra_os.Base.Numerals.RoundTrip.{parse_int-decimal, parse_uuid-str_uuid}
use wanderra_os.Base.Result.{Result, ok, ◌>>=◌}
use wanderra_os.Messaging.Contracts.{MessagingFailure, EventEnvelope, event_envelope}
use wanderra_os.Messaging.Models.{MessagingContext}
use wanderra_os.Messaging.Envelopes.{
  lookup, is_truthy, serialize_event, str_of, text_at, uuid_at, int_at, uuid_if, optional_uuid_at,
  deserialize_event, malformed_or,
}

-- An identifier of 128 bits.
abbrev pub IsUuid : ℕ → Type 0
IsUuid n = n < 340282366920938463463374607431768211456

abbrev pub IsUuidOrNone : Option ℕ → Type 0
IsUuidOrNone none = Unit
IsUuidOrNone (some n) = IsUuid n

-- The identifiers of an event have 128 bits.
pub record HasUuids (e : EventEnvelope) : Type 0 where
  pub event : IsUuid e.event_id
  pub workspace : IsUuid e.workspace_id
  pub aggregate : IsUuid e.aggregate_id
  pub actor : IsUuidOrNone e.actor_id
  pub causation : IsUuidOrNone e.causation_id
  pub delegation : IsUuidOrNone e.delegation_id

bound :
    {A B : Type 0} (r : Result MessagingFailure A) (f : A → Result MessagingFailure B) {a : A}
    → r ≡ ok a
    → (r >>= f) ≡ f a
bound r f e = ap (λ x. x >>= f) e

module _ (m : MessagingContext) where
  uuid_at-str_uuid :
      (key : Text) (fs : Fields) (n : ℕ)
      → IsUuid n
      → lookup key fs ≡ some (string (str_uuid n))
      → uuid_at m key fs ≡ ok n
  unfolding uuid_at text_at str_of
  uuid_at-str_uuid key fs n small e =
      ap (λ o. malformed_or m o >>= (λ v. ok (str_of m v)) >>= (λ s. malformed_or m (parse_uuid s)))
        e
      ∙ ap (malformed_or m) (parse_uuid-str_uuid n small)

  int_at-decimal :
      (key : Text) (fs : Fields) (n : ℕ)
      → lookup key fs ≡ some (integer false n)
      → int_at m key fs ≡ ok n
  unfolding int_at text_at str_of
  int_at-decimal key fs n e =
      ap
        (λ o.
          malformed_or m o >>= (λ v. ok (str_of m v)) >>= (λ s. malformed_or m (parse_int 10 s)))
        e
      ∙ ap (malformed_or m) (parse_int-decimal n)

  optional_uuid_at-uuid_or_null :
      (key : Text) (fs : Fields) (o : Option ℕ)
      → IsUuidOrNone o
      → lookup key fs ≡ some (uuid_or_null o)
      → optional_uuid_at m key fs ≡ ok o
  unfolding optional_uuid_at uuid_if is_truthy str_of str_uuid hex_digits
  optional_uuid_at-uuid_or_null key fs none small e = ap (uuid_if m) e
  optional_uuid_at-uuid_or_null key fs (some n) small e =
      ap (uuid_if m) e
      ∙ ap (λ o. malformed_or m o >>= λ id. ok (some id)) (parse_uuid-str_uuid n small)

  -- An event that the envelope accepts, with identifiers of 128 bits and an instant that
  -- `fromisoformat` reads back from `isoformat`, is what `_deserialize_event` makes of what
  -- `_serialize_event` writes of it.
  pub deserialize_event-serialize_event :
      (e : EventEnvelope)
      → event_envelope e ≡ ok e
      → HasUuids e
      → m.fromisoformat (m.isoformat e.occurred_at) ≡ some e.occurred_at
      → deserialize_event m (serialize_event m e) ≡ ok e
  unfolding deserialize_event serialize_event lookup text_eq text_at str_of
  deserialize_event-serialize_event e accepted ids time =
      let fs = serialize_event m e in
      bound _ _ (uuid_at-str_uuid (codes "event_id") fs e.event_id ids.event refl)
      ∙ bound _ _ (int_at-decimal (codes "schema_major") fs e.schema_major refl)
      ∙ bound _ _ (int_at-decimal (codes "schema_minor") fs e.schema_minor refl)
      ∙ bound _ _ (uuid_at-str_uuid (codes "workspace_id") fs e.workspace_id ids.workspace refl)
      ∙ bound _ _ (uuid_at-str_uuid (codes "aggregate_id") fs e.aggregate_id ids.aggregate refl)
      ∙ bound _ _ (int_at-decimal (codes "aggregate_sequence") fs e.aggregate_sequence refl)
      ∙ bound _ _ (optional_uuid_at-uuid_or_null (codes "actor_id") fs e.actor_id ids.actor refl)
      ∙ bound _ _ (ap (malformed_or m) time)
      ∙ bound _ _ (
          optional_uuid_at-uuid_or_null (codes "causation_id") fs e.causation_id ids.causation refl)
      ∙ bound _ _ (
          optional_uuid_at-uuid_or_null (codes "delegation_id") fs e.delegation_id ids.delegation
            refl)
      ∙ accepted
