-- ===== src/Jobs/Models.antt =====
-- app/jobs/models.py: the rows of the five tables, the audit and outbox rows that the service
-- appends, and the execution context. Identifiers are numbers, and every row holds its tenant.
use wanderra_os.Base.{ℕ, Bool, Option, List}
use wanderra_os.Base.Text.{Text}
use wanderra_os.Base.Json.{Json}
use wanderra_os.Jobs.Contracts.{
  Instant, JobStatus, AttemptStatus, FailureCategory, ScheduleKind, MisfirePolicy, Classification,
}
use wanderra_os.Jobs.Schedules.{DailySchedule}

-- `TenantMixin`
pub record Tenant : Type 0 where
  pub organization_id : ℕ
  pub workspace_id : ℕ
  pub cell_id : ℕ

pub data DefinitionStatus : Type 0 where
  active paused retired : DefinitionStatus

pub record JobDefinition : Type 0 where
  pub tenant : Tenant
  pub id : ℕ
  pub definition_key : Text
  pub definition_version : ℕ
  pub handler_key : Text
  pub max_attempts : ℕ
  pub retry_delays : List ℕ
  pub max_concurrency : ℕ
  pub rate_limit_per_minute : ℕ
  pub status : DefinitionStatus
  pub state_version : ℕ
  pub created_by_user_id : ℕ
  pub created_at : Instant
  pub updated_at : Instant

pub record JobInstance : Type 0 where
  pub tenant : Tenant
  pub id : ℕ
  pub definition_id : ℕ
  pub resource_id : Option ℕ
  pub idempotency_key : Text
  pub request_digest : Text
  pub command_type : Text
  pub payload : Json
  pub classification : Classification
  pub status : JobStatus
  pub available_at : Instant
  pub deadline : Instant
  pub attempt_count : ℕ
  pub lease_owner : Option Text
  pub lease_expires_at : Option Instant
  pub heartbeat_at : Option Instant
  pub cancellation_requested_at : Option Instant
  pub cancellation_reason : Option Text
  pub replay_of_job_id : Option ℕ
  pub causation_id : Option ℕ
  pub correlation_id : Text
  pub state_version : ℕ
  pub created_by_user_id : ℕ
  pub created_at : Instant
  pub updated_at : Instant
  pub completed_at : Option Instant
  pub result_digest : Option Text

pub record JobAttempt : Type 0 where
  pub tenant : Tenant
  pub id : ℕ
  pub job_id : ℕ
  pub attempt_number : ℕ
  pub worker_id : Text
  pub status : AttemptStatus
  pub failure_category : Option FailureCategory
  pub error_code : Option Text
  pub started_at : Instant
  pub heartbeat_at : Instant
  pub lease_expires_at : Instant
  pub finished_at : Option Instant

pub data LetterStatus : Type 0 where
  open_letter replayed : LetterStatus

pub record JobDeadLetter : Type 0 where
  pub tenant : Tenant
  pub id : ℕ
  pub job_id : ℕ
  pub failure_category : FailureCategory
  pub error_code : Text
  pub status : LetterStatus
  pub created_at : Instant
  pub replayed_at : Option Instant
  pub replayed_by_user_id : Option ℕ
  pub replay_job_id : Option ℕ
  pub replay_reason : Option Text

pub data ScheduleStatus : Type 0 where
  active paused completed : ScheduleStatus

-- The four local-time columns are the one optional value that `_schedule_spec` makes of them.
pub record JobSchedule : Type 0 where
  pub tenant : Tenant
  pub id : ℕ
  pub definition_id : ℕ
  pub schedule_kind : ScheduleKind
  pub misfire_policy : MisfirePolicy
  pub first_due_at : Instant
  pub interval_seconds : Option ℕ
  pub daily : Option DailySchedule
  pub command_type : Text
  pub command_payload : Json
  pub idempotency_prefix : Text
  pub job_deadline_seconds : ℕ
  pub status : ScheduleStatus
  pub next_due_at : Instant
  pub last_evaluated_at : Option Instant
  pub state_version : ℕ
  pub created_by_user_id : ℕ
  pub created_at : Instant
  pub updated_at : Instant

-- `other` is a text that names neither scope.
pub data ScopeType : Type 0 where
  workspace definition other : ScopeType

pub record JobOperatorControl : Type 0 where
  pub tenant : Tenant
  pub id : ℕ
  pub scope_type : ScopeType
  pub scope_reference : Text
  pub paused : Bool
  pub reason : Text
  pub state_version : ℕ
  pub changed_by_user_id : ℕ
  pub changed_at : Instant

pub data EventType : Type 0 where
  definition_registered job_enqueued job_claimed job_heartbeat job_cancelled job_succeeded :
      EventType
  job_retry_scheduled job_expired job_cancellation_requested job_replayed : EventType
  job_lease_recovered job_dead_lettered control_changed : EventType
  schedule_paused schedule_resumed schedule_registered schedule_evaluated : EventType

pub data AggregateType : Type 0 where
  job_definition job job_schedule job_control : AggregateType

-- The audit row that `_record` writes: `details` is the version alone.
pub record AuditRow : Type 0 where
  pub workspace_id : ℕ
  pub actor_id : ℕ
  pub action : EventType
  pub target_type : AggregateType
  pub target_id : ℕ
  pub state_version : ℕ
  pub correlation_id : Text

-- The outbox row; what is the same in every row, or repeats a column, is left out.
pub record OutboxRow : Type 0 where
  pub workspace_id : ℕ
  pub id : ℕ
  pub event_type : EventType
  pub aggregate_type : AggregateType
  pub aggregate_id : ℕ
  pub aggregate_sequence : ℕ
  pub actor_id : ℕ
  pub delegation_id : Option ℕ
  pub correlation_id : Text
  pub recorded_at : Instant

-- What the session holds. `ids_drawn` counts the calls of the id factory.
pub record Store : Type 0 where
  pub definitions : List JobDefinition
  pub jobs : List JobInstance
  pub attempts : List JobAttempt
  pub dead_letters : List JobDeadLetter
  pub schedules : List JobSchedule
  pub controls : List JobOperatorControl
  pub audit : List AuditRow
  pub outbox : List OutboxRow
  pub ids_drawn : ℕ

pub data Permission : Type 0 where
  update_content manage_workspace : Permission

-- The execution context and what the service is constructed with or calls: the authorizer, the
-- id factory by the number of the call, the clock, SHA-256 and `isoformat`. `is_locked` tells the
-- rows that another transaction holds and `skip_locked` passes over. `is_bound` tells that the
-- session has an execution context, and `is_current` that it is this one.
pub record Context : Type 0 where
  pub tenant : Tenant
  pub actor_id : ℕ
  pub delegation_id : Option ℕ
  pub correlation_id : Text
  pub authorize : Permission → Bool
  pub id_factory : ℕ → ℕ
  pub clock : Instant
  pub sha256 : Text → Text
  pub isoformat : Instant → Text
  pub is_locked : ℕ → Bool
  pub is_bound : Bool
  pub is_current : Bool
