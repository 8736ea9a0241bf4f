-- ===== src/Messaging/Models.antt =====
-- app/messaging/models.py: the rows, the session, and the context of the services. The columns that
-- the database fills are left out.
use wanderra_os.Base.{ℕ, Option, List}
use wanderra_os.Base.Text.{Text}
use wanderra_os.Base.Json.{Json, Fields}
use wanderra_os.Jobs.Contracts.{Instant, DateTime}
use wanderra_os.Tenancy.Models.{AuditEvent, OutboxEvent}
use wanderra_os.ExecutionContext.Contracts.{ExecutionContext}

-- `ck_command_idempotency_status`
pub data CommandStatus : Type 0 where
  started completed : CommandStatus

pub record CommandIdempotency : Type 0 where
  pub workspace_id : ℕ
  pub actor_id : ℕ
  pub command_type : Text
  pub idempotency_key : Text
  pub request_digest : Text
  pub status : CommandStatus
  pub outcome_event_id : Option ℕ
  pub aggregate_version : Option ℕ
  pub correlation_id : Text
  pub completed_at : Option Instant

pub record AggregateVersion : Type 0 where
  pub workspace_id : ℕ
  pub aggregate_type : Text
  pub aggregate_id : ℕ
  pub version : ℕ

-- `ck_inbox_events_status`
pub data InboxStatus : Type 0 where
  processed quarantined : InboxStatus

pub record InboxEvent : Type 0 where
  pub workspace_id : ℕ
  pub consumer_id : Text
  pub event_id : ℕ
  pub event_type : Text
  pub schema_major : ℕ
  pub schema_minor : ℕ
  pub aggregate_type : Text
  pub aggregate_id : ℕ
  pub aggregate_sequence : ℕ
  pub status : InboxStatus
  pub payload_digest : Text

pub record ConsumerSequence : Type 0 where
  pub workspace_id : ℕ
  pub consumer_id : Text
  pub aggregate_type : Text
  pub aggregate_id : ℕ
  pub last_sequence : ℕ

-- The texts that the service gives as `reason`.
pub data QuarantineReason : Type 0 where
  unknown_schema sequence_gap stale_sequence poison_message : QuarantineReason

-- `ck_event_quarantine_status`
pub data QuarantineStatus : Type 0 where
  quarantined replayed : QuarantineStatus

pub record EventQuarantine : Type 0 where
  pub workspace_id : ℕ
  pub id : ℕ
  pub consumer_id : Text
  pub event_id : ℕ
  pub reason : QuarantineReason
  pub expected_sequence : Option ℕ
  pub observed_sequence : ℕ
  pub event_payload : Fields
  pub payload_digest : Text
  pub status : QuarantineStatus
  pub replayed_at : Option Instant
  pub replayed_by : Option ℕ
  pub replay_decision_id : Option ℕ

-- The session: the tables of the package, the data `D` on which consumers apply events, the context
-- that the transaction has bound, and how many identifiers `uuid4` has drawn.
pub record MessagingStore (D : Type 0) : Type 0 where
  pub commands : List CommandIdempotency
  pub aggregates : List AggregateVersion
  pub inbox : List InboxEvent
  pub sequences : List ConsumerSequence
  pub quarantines : List EventQuarantine
  pub audit : List AuditEvent
  pub outbox : List OutboxEvent
  pub domain : D
  pub bound : Option ExecutionContext
  pub draws : ℕ

-- The context, and what the services call: SHA-256, `uuid4` as a sequence, the clock, `isoformat`
-- and its reader, the month of an instant, and `str` of a list or a dictionary.
pub record MessagingContext : Type 0 where
  pub context : ExecutionContext
  pub sha256 : Text → Text
  pub fresh : ℕ → ℕ
  pub clock : Instant
  pub isoformat : DateTime → Text
  pub fromisoformat : Text → Option DateTime
  pub month : Instant → Text
  pub str_container : Json → Text
