-- ===== src/Jobs/Service/Dispatch.antt =====
-- app/jobs/service.py: `register_schedule`, `_schedule_spec` and `dispatch_due_schedules`.
use wanderra_os.Base.{ℕ, ◌+◌, not, ◌&&◌, Option, none, some, List, [], ◌∷◌, ◌++◌, leb, is_some}
use wanderra_os.Base.Text.{Text}
use wanderra_os.Base.Json.{Json}
use wanderra_os.Base.Result.{Result, ok, err}
use wanderra_os.Base.Action.{◌>>=◌, ◌>>◌, pure, raise_if, gets, lift}
use wanderra_os.Jobs.Contracts.{
  Instant, seconds, DateTime, Failure, ScheduleKind, daily_local, Classification, EnqueueInput,
  job_enqueue, safe_payload, schedule_exists, schedule_deadline_invalid, assertion_failed,
}
use wanderra_os.Jobs.Schedules.{
  DailySchedule, daily_schedule, ScheduleSpec, schedule_spec, due_occurrences, next_occurrence,
}
use wanderra_os.Jobs.Models.{
  JobInstance, JobSchedule, ScheduleStatus, EventType, AggregateType, Permission, Context,
}
use wanderra_os.Jobs.Repository
use wanderra_os.Jobs.Repository.{Job}
use wanderra_os.Jobs.Session.{new_id, add_schedule, save_schedule, record_event}
use wanderra_os.Jobs.Service.Guards.{require_authorized, require_definition}
use wanderra_os.Jobs.Service.Enqueue.{now_or, enqueue}

-- The daily part that `_schedule_spec` reads from the columns.
daily_part : ScheduleKind → Option DailySchedule → Result Failure (Option DailySchedule)
daily_part daily_local none = err assertion_failed
daily_part daily_local (some d) = elim (daily_schedule d) [ ok v ↦ ok (some v) | err e ↦ err e ]
daily_part _ _ = ok none

-- The fields that `_schedule_spec` copies.
spec_of : JobSchedule → Option DailySchedule → ScheduleSpec
spec_of r daily = record {
  schedule_id = r.id;
  definition_id = r.definition_id;
  kind = r.schedule_kind;
  first_due_at = r.first_due_at;
  misfire_policy = r.misfire_policy;
  interval_seconds = r.interval_seconds;
  daily = daily;
}

-- `_schedule_spec`
unfoldable pub schedule_spec_of : JobSchedule → Result Failure ScheduleSpec
unfolding daily_part spec_of
schedule_spec_of r = elim (daily_part r.schedule_kind r.daily) [
  | ok daily ↦ schedule_spec (spec_of r daily) (DateTime.aware r.first_due_at)
  | err e ↦ err e
]

-- The schedule once its occurrences are enqueued.
unfoldable pub touched : JobSchedule → Instant → JobSchedule
touched r now = record r {
  last_evaluated_at = some now;
  updated_at = now;
  state_version = r.state_version + 1;
}

-- The schedule with its next occurrence, or at its end.
unfoldable pub advanced : JobSchedule → Option Instant → JobSchedule
advanced r none = record r { status = ScheduleStatus.completed }
advanced r (some t) = record r { next_due_at = t }

module _ (context : Context) where
  unfoldable pub register_schedule :
      ScheduleSpec → Text → Json → Text → ℕ → Option Instant → Job JobSchedule
  unfolding require_authorized
  register_schedule spec command_type payload idempotency_prefix job_deadline_seconds now = do
    require_authorized context Permission.manage_workspace
    _ ← require_definition context spec.definition_id
    existing ← gets (Repository.schedule context spec.schedule_id)
    raise_if (is_some existing) schedule_exists
    raise_if (not (leb 1 job_deadline_seconds && leb job_deadline_seconds 86400))
        schedule_deadline_invalid
    let occurred_at = now_or now context.clock
    command_payload ← lift (safe_payload payload)
    let value : JobSchedule = record {
      tenant = context.tenant;
      id = spec.schedule_id;
      definition_id = spec.definition_id;
      schedule_kind = spec.kind;
      misfire_policy = spec.misfire_policy;
      first_due_at = spec.first_due_at;
      interval_seconds = spec.interval_seconds;
      daily = spec.daily;
      command_type = command_type;
      command_payload = command_payload;
      idempotency_prefix = idempotency_prefix;
      job_deadline_seconds = job_deadline_seconds;
      status = ScheduleStatus.active;
      next_due_at = spec.first_due_at;
      last_evaluated_at = none;
      state_version = 1;
      created_by_user_id = context.actor_id;
      created_at = occurred_at;
      updated_at = occurred_at;
    }
    add_schedule context value
    record_event context value.id 1 EventType.schedule_registered AggregateType.job_schedule
        occurred_at
    pure value

  -- The command of one occurrence; `new_job_id` is drawn from the id factory.
  unfoldable pub occurrence_input : JobSchedule → ℕ → Instant → EnqueueInput
  occurrence_input r new_job_id occurrence = record {
    job_id = new_job_id;
    definition_id = r.definition_id;
    idempotency_key = r.idempotency_prefix ++ (58 ∷ context.isoformat occurrence);
    command_type = r.command_type;
    payload = r.command_payload;
    available_at = DateTime.aware occurrence;
    deadline = DateTime.aware (occurrence + seconds r.job_deadline_seconds);
    resource_id = none;
    classification = some Classification.internal;
    causation_id = some r.id;
  }

  unfoldable pub enqueue_occurrences : JobSchedule → List Instant → Instant → Job (List JobInstance)
  unfolding occurrence_input
  enqueue_occurrences r [] now = pure []
  enqueue_occurrences r (t ∷ ts) now = do
    id ← new_id context
    command ← lift (job_enqueue (occurrence_input r id t))
    created ← enqueue context command (some now)
    rest ← enqueue_occurrences r ts now
    pure (created ∷ rest)

  -- The body of the loop over the due schedules.
  unfoldable pub dispatch_schedule : JobSchedule → Instant → Job (List JobInstance)
  unfolding schedule_spec_of touched advanced
  dispatch_schedule r now = do
    spec ← lift (schedule_spec_of r)
    occurrences ← lift (due_occurrences spec now)
    created ← enqueue_occurrences r occurrences now
    save_schedule context (touched r now)
    following ← lift (next_occurrence spec now)
    let value = advanced (touched r now) following
    save_schedule context value
    record_event context value.id value.state_version EventType.schedule_evaluated
        AggregateType.job_schedule now
    pure created

  unfoldable pub dispatch_schedules : List JobSchedule → Instant → Job (List JobInstance)
  dispatch_schedules [] now = pure []
  dispatch_schedules (r ∷ rs) now = do
    created ← dispatch_schedule r now
    rest ← dispatch_schedules rs now
    pure (created ++ rest)

  unfoldable pub dispatch_due_schedules : Instant → Job (List JobInstance)
  unfolding require_authorized
  dispatch_due_schedules now = do
    require_authorized context Permission.update_content
    rows ← gets (Repository.due_schedules context now)
    dispatch_schedules rows now
