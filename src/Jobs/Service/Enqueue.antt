-- ===== src/Jobs/Service/Enqueue.antt =====
-- app/jobs/service.py: `register_definition`, `_digest` and `enqueue`.
use wanderra_os.Base.{Bool, true, false, not, Option, none, some, leb, is_some}
use wanderra_os.Base.Text.{Text, codes, text_eq}
use wanderra_os.Base.Json.{Json, string, object, end, field, dumps, str_uuid, uuid_or_null}
use wanderra_os.Base.Action.{◌>>=◌, ◌>>◌, pure, raise_if, gets, lift, some_or}
use wanderra_os.Jobs.Contracts.{
  Instant, Classification, JobStatus, JobDefinitionSpec, JobEnqueue, safe_payload,
  definition_exists, definition_unavailable, backlog_quota_exceeded, enqueue_rate_exceeded,
  key_reused, payload_not_json,
}
use wanderra_os.Jobs.Models.{
  DefinitionStatus, JobDefinition, JobInstance, EventType, AggregateType, Permission, Context,
}
use wanderra_os.Jobs.Repository
use wanderra_os.Jobs.Repository.{Job}
use wanderra_os.Jobs.Session.{add_definition, add_job, record_event}
use wanderra_os.Jobs.Service.Guards.{require_authorized, record_job}

-- `now or datetime.now(UTC)`
abbrev pub now_or : Option Instant → Instant → Instant
now_or none clock = clock
now_or (some t) clock = t

abbrev pub is_available : Option JobDefinition → Bool
is_available none = false
is_available (some d) = elim d.status [ DefinitionStatus.retired ↦ false | _ ↦ true ]

class_name : Classification → Text
class_name Classification.public = codes "public"
class_name Classification.internal = codes "internal"
class_name Classification.confidential = codes "confidential"
class_name Classification.restricted = codes "restricted"

module _ (context : Context) where
  -- What `_digest` encodes: all of the command but its key and the identifier of the new job.
  unfoldable pub digest_fields : JobEnqueue → Json
  unfolding class_name
  digest_fields c = object (
      field (codes "definition_id") (string (str_uuid c.definition_id)) (
        field (codes "command_type") (string c.command_type) (
          field (codes "payload") c.payload (
            field (codes "resource_id") (uuid_or_null c.resource_id) (
              field (codes "classification") (string (class_name c.classification)) (
                field (codes "available_at") (string (context.isoformat c.available_at)) (
                  field (codes "deadline") (string (context.isoformat c.deadline))
                    (field (codes "causation_id") (uuid_or_null c.causation_id) end))))))))

  -- `_digest`
  unfoldable pub digest : JobEnqueue → Job Text
  unfolding digest_fields
  digest c = do
    encoded ← some_or (dumps (digest_fields c)) payload_not_json
    pure (context.sha256 encoded)

  unfoldable pub register_definition : JobDefinitionSpec → Option Instant → Job JobDefinition
  register_definition spec now = do
    require_authorized context Permission.manage_workspace
    existing ← gets (Repository.definition context spec.definition_id)
    raise_if (is_some existing) definition_exists
    let occurred_at = now_or now context.clock
    let value : JobDefinition = record {
      tenant = context.tenant;
      id = spec.definition_id;
      definition_key = spec.key;
      definition_version = spec.version;
      handler_key = spec.handler_key;
      max_attempts = spec.policy.max_attempts;
      retry_delays = spec.policy.delays;
      max_concurrency = spec.max_concurrency;
      rate_limit_per_minute = spec.rate_limit_per_minute;
      status = DefinitionStatus.active;
      state_version = 1;
      created_by_user_id = context.actor_id;
      created_at = occurred_at;
      updated_at = occurred_at;
    }
    add_definition context value
    record_event context value.id 1 EventType.definition_registered AggregateType.job_definition
        occurred_at
    pure value

  -- The row that `enqueue` inserts.
  unfoldable pub new_job : JobEnqueue → Text → Json → Instant → JobInstance
  new_job c request_digest payload occurred_at = record {
    tenant = context.tenant;
    id = c.job_id;
    definition_id = c.definition_id;
    resource_id = c.resource_id;
    idempotency_key = c.idempotency_key;
    request_digest = request_digest;
    command_type = c.command_type;
    payload = payload;
    classification = c.classification;
    status = JobStatus.queued;
    available_at = c.available_at;
    deadline = c.deadline;
    attempt_count = 0;
    lease_owner = none;
    lease_expires_at = none;
    heartbeat_at = none;
    cancellation_requested_at = none;
    cancellation_reason = none;
    replay_of_job_id = none;
    causation_id = c.causation_id;
    correlation_id = context.correlation_id;
    state_version = 1;
    created_by_user_id = context.actor_id;
    created_at = occurred_at;
    updated_at = occurred_at;
    completed_at = none;
    result_digest = none;
  }

  -- The branch of a key that is not in use: two quotas, then the insert and its event.
  unfoldable pub enqueue_new : JobEnqueue → Text → Instant → Job JobInstance
  unfolding new_job
  enqueue_new c request_digest occurred_at = do
    raise_if (leb 10000 (← gets (Repository.backlog_count context))) backlog_quota_exceeded
    raise_if (leb 120 (← gets (Repository.recent_enqueue_count context occurred_at)))
        enqueue_rate_exceeded
    payload ← lift (safe_payload c.payload)
    let value = new_job c request_digest payload occurred_at
    add_job context value
    record_job context value EventType.job_enqueued occurred_at
    pure value

  -- The branch of a key that is in use.
  unfoldable pub enqueue_existing : JobInstance → Text → Job JobInstance
  enqueue_existing existing request_digest = do
    raise_if (not (text_eq existing.request_digest request_digest)) key_reused
    pure existing

  unfoldable pub enqueue_keyed : JobEnqueue → Text → Instant → Option JobInstance → Job JobInstance
  enqueue_keyed c request_digest occurred_at none = enqueue_new c request_digest occurred_at
  enqueue_keyed c request_digest occurred_at (some r) = enqueue_existing r request_digest

  -- The advisory locks order concurrent calls; here each call runs whole.
  unfoldable pub enqueue : JobEnqueue → Option Instant → Job JobInstance
  unfolding require_authorized
  enqueue c now = do
    require_authorized context Permission.update_content
    found ← gets (Repository.definition context c.definition_id)
    raise_if (not (is_available found)) definition_unavailable
    request_digest ← digest c
    existing ← gets (Repository.job_by_idempotency context c.definition_id c.idempotency_key)
    enqueue_keyed c request_digest (now_or now context.clock) existing
