-- ===== src/Messaging/Commands.antt =====
-- `CommandService` of app/messaging/service.py.
use wanderra_os.Base.{ℕ, ◌+◌, true, false, not, Option, none, some, ◌==◌, if◌then◌else◌}
use wanderra_os.Base.Text.{Text, codes, text_eq}
use wanderra_os.Base.Json.{Fields, end, field, string, integer, str_uuid}
use wanderra_os.Base.Action.{◌>>=◌, ◌>>◌, pure, raise, raise_if, lift}
use wanderra_os.Jobs.Contracts.{Instant}
use wanderra_os.Tenancy.Models.{OutboxEvent}
use wanderra_os.Messaging.Contracts.{
  MessagingFailure, CommandEnvelope, CommandResult, request_digest, safe_payload, payload_digest_of,
}
use wanderra_os.Messaging.Models.{
  CommandStatus, CommandIdempotency, AggregateVersion, MessagingContext,
}
use wanderra_os.Messaging.Repository.{
  MessagingAction, uuid4, claim_command, lock_aggregate, save_aggregate, save_command, add_outbox,
}
use wanderra_os.Messaging.Audit.{write}

-- The outcome that a completed row holds.
abbrev pub outcome_of : CommandStatus → Option ℕ → Option ℕ → Option CommandResult
outcome_of CommandStatus.completed (some event_id) (some version) =
    some (record { event_id = event_id; aggregate_version = version; replayed = true })
outcome_of _ _ _ = none

-- What `record` is given besides the command: the event's type, payload and schema.
pub record EventDraft : Type 0 where
  pub event_type : Text
  pub event_payload : Fields
  pub schema_major : ℕ
  pub schema_minor : ℕ

abbrev pub now_or : Option Instant → Instant → Instant
now_or none clock = clock
now_or (some t) clock = t

abbrev pub command_outbox :
    MessagingContext → CommandEnvelope → EventDraft → Fields → Text → ℕ → ℕ → Instant → OutboxEvent
command_outbox m command draft payload digest event_id version occurred_at = record {
  workspace_id = command.workspace_id;
  id = event_id;
  event_type = draft.event_type;
  schema_version = draft.schema_major;
  aggregate_type = command.aggregate_type;
  aggregate_id = command.aggregate_id;
  aggregate_sequence = version;
  payload = payload;
  actor_id = some command.actor_id;
  delegation_id = command.delegation_id;
  correlation_id = some command.correlation_id;
  causation_id = command.causation_id;
  classification = codes "internal";
  schema_major = draft.schema_major;
  schema_minor = draft.schema_minor;
  idempotency_key = some command.idempotency_key;
  payload_digest = some digest;
  recorded_at = some occurred_at;
  partition_key = some (m.month occurred_at);
}

module _ {D : Type 0} (m : MessagingContext) where
  -- The result of an earlier call, if that is complete.
  abbrev pub answer : Option CommandResult → MessagingAction D CommandResult
  answer none = raise MessagingFailure.still_in_progress
  answer (some result) = pure result

  -- `record` for a command whose key is taken.
  unfoldable pub record_known :
      CommandEnvelope → CommandIdempotency → MessagingAction D CommandResult
  record_known command idempotency = do
    digest ← lift (request_digest m.sha256 command)
    raise_if (not (text_eq idempotency.request_digest digest)) MessagingFailure.key_reused
    answer
        (outcome_of idempotency.status idempotency.outcome_event_id idempotency.aggregate_version)

  -- The new version of a command's aggregate, its audit row and its event, whose identifier it
  -- returns with the version.
  unfoldable pub publish :
      CommandEnvelope → EventDraft → Fields → Option Instant → MessagingAction D (ℕ × ℕ)
  publish command draft payload now = do
    found ← lock_aggregate m command.workspace_id command.aggregate_type command.aggregate_id
    raise_if (not (found.version == command.expected_version)) MessagingFailure.version_stale
    let aggregate : AggregateVersion = record found { version = found.version + 1 }
    save_aggregate aggregate
    event_id ← uuid4 m
    let occurred_at = now_or now m.clock
    _ ← write m (record {
      action = command.command_type;
      target_type = command.aggregate_type;
      target_id = command.aggregate_id;
      outcome = codes "success";
      decision_id = none;
      classification = codes "internal";
      details = some (
          field (codes "aggregate_version") (integer false aggregate.version)
            (field (codes "event_id") (string (str_uuid event_id)) end));
    })
    digest ← lift (payload_digest_of m.sha256 payload)
    add_outbox
        (command_outbox m command draft payload digest event_id aggregate.version occurred_at)
    pure (event_id, aggregate.version)

  -- `record` for a command whose key it has just claimed.
  unfoldable pub record_claimed :
      CommandEnvelope
      → EventDraft
      → Fields
      → Option Instant
      → CommandIdempotency
      → MessagingAction D CommandResult
  unfolding publish
  record_claimed command draft payload now idempotency = do
    (event_id, version) ← publish command draft payload now
    save_command command (record idempotency {
      status = CommandStatus.completed;
      outcome_event_id = some event_id;
      aggregate_version = some version;
      completed_at = some (now_or now m.clock);
    })
    pure (record { event_id = event_id; aggregate_version = version; replayed = false })

  -- `record`
  unfoldable pub record_command :
      CommandEnvelope → EventDraft → Option Instant → MessagingAction D CommandResult
  unfolding record_known record_claimed
  record_command command draft now = do
    raise_if (not (command.workspace_id == m.context.tenant.workspace_id))
        MessagingFailure.workspace_differs
    raise_if (not (command.actor_id == m.context.actor.actor_id)) MessagingFailure.actor_differs
    payload ← lift (safe_payload draft.event_payload)
    (idempotency, created) ← claim_command m command
    if created
        then record_claimed command draft payload now idempotency
        else record_known command idempotency
