-- ===== src/Messaging/Contracts.antt =====
-- app/messaging/contracts.py: the envelopes of commands and events, and what the package raises.
use wanderra_os.Base.{
  ℕ, Bool, false, Option, List, [], ◌∷◌, any, length, ltb, leb, ◌&&◌, ◌+◌, ◌==◌, if◌then◌else◌,
}
use wanderra_os.Base.Text.{Text, strip, codes, contains}
use wanderra_os.Base.Json.{
  Json, Fields, end, field, string, integer, object, dumps, str_uuid, uuid_or_null,
}
use wanderra_os.Base.Result.{Result, ok, ◌>>=◌, ◌>>◌, raise_if, some_or}
use wanderra_os.Jobs.Contracts.{DateTime}
use wanderra_os.ExecutionContext.Contracts.{ContextFailure}

-- The first line is the `ValueError`s of the envelopes; `unserializable` is the encoder's
-- `TypeError`, `malformed` what a stored envelope raises that cannot be read back. Then come the
-- `MessagingError`s, `IdempotencyConflict`, `ConcurrencyConflict`, `ReplayDenied`, and what the
-- repositories' check, the database and `assert` raise.
pub data MessagingFailure : Type 0 where
  text_missing schema_version_invalid sequence_invalid : MessagingFailure
  unserializable malformed : MessagingFailure
  payload_sensitive workspace_differs actor_differs : MessagingFailure
  key_reused still_in_progress : MessagingFailure
  version_stale : MessagingFailure
  replay_unauthorized quarantine_unavailable schema_unsupported gap_unresolved : MessagingFailure
  context_refused : ContextFailure → MessagingFailure
  constraint_violated assertion_failed : MessagingFailure

pub data ConsumerResult : Type 0 where
  processed duplicate gap quarantined dry_run : ConsumerResult

pub record CommandEnvelope : Type 0 where
  pub workspace_id : ℕ
  pub actor_id : ℕ
  pub command_type : Text
  pub idempotency_key : Text
  pub aggregate_type : Text
  pub aggregate_id : ℕ
  pub expected_version : ℕ
  pub correlation_id : Text
  pub payload : Fields
  pub causation_id : Option ℕ
  pub delegation_id : Option ℕ

abbrev pub is_blank : Text → Bool
is_blank value = length (strip value) == 0

-- `CommandEnvelope.__post_init__`
unfoldable pub command_envelope : CommandEnvelope → Result MessagingFailure CommandEnvelope
command_envelope c = do
  raise_if
      (any is_blank (c.command_type ∷ c.idempotency_key ∷ c.aggregate_type ∷ c.correlation_id ∷ []))
      MessagingFailure.text_missing
  ok c

abbrev pub request_fields : CommandEnvelope → Fields
request_fields c = field (codes "workspace_id") (string (str_uuid c.workspace_id)) (
    field (codes "actor_id") (string (str_uuid c.actor_id)) (
      field (codes "command_type") (string c.command_type) (
        field (codes "aggregate_type") (string c.aggregate_type) (
          field (codes "aggregate_id") (string (str_uuid c.aggregate_id)) (
            field (codes "expected_version") (integer false c.expected_version) (
              field (codes "correlation_id") (string c.correlation_id) (
                field (codes "causation_id") (uuid_or_null c.causation_id) (
                  field (codes "delegation_id") (uuid_or_null c.delegation_id)
                    (field (codes "payload") (object c.payload) end)))))))))

-- SHA-256 of the encoded value, in hexadecimal.
unfoldable pub digest_of : (Text → Text) → Json → Result MessagingFailure Text
digest_of sha256 value = do
  encoded ← some_or (dumps value) MessagingFailure.unserializable
  ok (sha256 encoded)

-- `CommandEnvelope.request_digest`
unfoldable pub request_digest : (Text → Text) → CommandEnvelope → Result MessagingFailure Text
request_digest sha256 c = digest_of sha256 (object (request_fields c))

pub record EventEnvelope : Type 0 where
  pub event_id : ℕ
  pub event_type : Text
  pub schema_major : ℕ
  pub schema_minor : ℕ
  pub workspace_id : ℕ
  pub aggregate_type : Text
  pub aggregate_id : ℕ
  pub aggregate_sequence : ℕ
  pub actor_id : Option ℕ
  pub correlation_id : Text
  pub occurred_at : DateTime
  pub classification : Text
  pub payload : Fields
  pub causation_id : Option ℕ
  pub delegation_id : Option ℕ

-- `EventEnvelope.__post_init__`
unfoldable pub event_envelope : EventEnvelope → Result MessagingFailure EventEnvelope
event_envelope e = do
  raise_if (ltb e.schema_major 1) MessagingFailure.schema_version_invalid
  raise_if (ltb e.aggregate_sequence 1) MessagingFailure.sequence_invalid
  raise_if
      (any is_blank (e.event_type ∷ e.aggregate_type ∷ e.correlation_id ∷ e.classification ∷ []))
      MessagingFailure.text_missing
  ok e

pub record CommandResult : Type 0 where
  pub event_id : ℕ
  pub aggregate_version : ℕ
  pub replayed : Bool

pub record AuditInput : Type 0 where
  pub action : Text
  pub target_type : Text
  pub target_id : ℕ
  pub outcome : Text
  pub decision_id : Option ℕ
  pub classification : Text
  pub details : Option Fields

-- `FORBIDDEN_PAYLOAD_TERMS`
abbrev pub forbidden_payload_terms : List Text
forbidden_payload_terms =
    codes "password"
    ∷ codes "secret"
    ∷ codes "token"
    ∷ codes "credential"
    ∷ codes "ciphertext"
    ∷ codes "private_key"
    ∷ []

-- `str.lower` on the encoder's output, which is ASCII.
lower : Text → Text
lower [] = []
lower (c ∷ s) = (if leb 65 c && leb c 90 then c + 32 else c) ∷ lower s

-- `_safe_payload`
unfoldable pub safe_payload : Fields → Result MessagingFailure Fields
unfolding lower
safe_payload payload = do
  encoded ← some_or (dumps (object payload)) MessagingFailure.unserializable
  raise_if (any (λ term. contains term (lower encoded)) forbidden_payload_terms)
      MessagingFailure.payload_sensitive
  ok payload

-- `_digest`
abbrev pub payload_digest_of : (Text → Text) → Fields → Result MessagingFailure Text
payload_digest_of sha256 payload = digest_of sha256 (object payload)
