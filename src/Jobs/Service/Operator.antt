-- ===== src/Jobs/Service/Operator.antt =====
-- app/jobs/service.py: `cancel`, `replay`, `set_paused` and `set_schedule_paused`.
use wanderra_os.Base.{
  ℕ, ◌+◌, ◌-◌, max, Bool, true, false, not, ◌&&◌, Option, none, some, ◌==◌, if◌then◌else◌,
}
use wanderra_os.Base.Text.{Text, text_eq}
use wanderra_os.Base.Json.{str_uuid}
use wanderra_os.Base.Action.{◌>>=◌, ◌>>◌, pure, raise_if, gets, lift, some_or}
use wanderra_os.Jobs.Contracts.{
  Instant, seconds, DateTime, JobStatus, EnqueueInput, job_enqueue, terminal_job,
  replay_unavailable, scope_invalid, scope_mismatch, version_stale, schedule_missing,
  schedule_completed,
}
use wanderra_os.Jobs.Models.{
  JobInstance, JobDeadLetter, LetterStatus, JobSchedule, ScheduleStatus, ScopeType,
  JobOperatorControl, EventType, AggregateType, Permission, Context,
}
use wanderra_os.Jobs.Repository
use wanderra_os.Jobs.Repository.{Job, is_running, is_terminal}
use wanderra_os.Jobs.Session.{
  save_job, save_letter, save_control, save_schedule, add_control, new_id, record_event,
}
use wanderra_os.Jobs.Service.Guards.{
  clear_lease, checked_reason, require_authorized, require_job, record_job,
}
use wanderra_os.Jobs.Service.Enqueue.{now_or, enqueue}

abbrev is_dead_lettered : JobStatus → Bool
is_dead_lettered JobStatus.dead_lettered = true
is_dead_lettered _ = false

abbrev is_open : LetterStatus → Bool
is_open LetterStatus.open_letter = true
is_open _ = false

abbrev is_known_scope : ScopeType → Bool
is_known_scope ScopeType.other = false
is_known_scope _ = true

abbrev is_workspace_scope : ScopeType → Bool
is_workspace_scope ScopeType.workspace = true
is_workspace_scope _ = false

abbrev is_completed : ScheduleStatus → Bool
is_completed ScheduleStatus.completed = true
is_completed _ = false

-- The version that a caller has to name: 0 for a control that is not there.
abbrev version_of : Option JobOperatorControl → ℕ
version_of none = 0
version_of (some r) = r.state_version

-- The job as `cancel` leaves it: one that runs is only marked.
unfoldable pub cancelled : JobInstance → Text → Instant → JobInstance
cancelled r reason now =
    let marked = record r {
      cancellation_requested_at = some now;
      cancellation_reason = some reason;
      updated_at = now;
      state_version = r.state_version + 1;
    } in
    if is_running r.status
    then marked
    else record (clear_lease marked) { status = JobStatus.cancelled; completed_at = some now }

-- The command that enqueues a dead-lettered job again, with at least 30 seconds to its deadline.
unfoldable pub replay_input : JobInstance → ℕ → Text → Instant → EnqueueInput
replay_input original new_job_id idempotency_key now = record {
  job_id = new_job_id;
  definition_id = original.definition_id;
  idempotency_key = idempotency_key;
  command_type = original.command_type;
  payload = original.payload;
  available_at = DateTime.aware now;
  deadline = DateTime.aware (now + max (original.deadline - original.created_at) (seconds 30));
  resource_id = original.resource_id;
  classification = some original.classification;
  causation_id = some original.id;
}

module _ (context : Context) where
  unfoldable pub cancel : ℕ → Text → Option Instant → Job JobInstance
  unfolding require_authorized require_job checked_reason cancelled
  cancel job_id text now = do
    require_authorized context Permission.update_content
    r ← require_job context job_id
    let occurred_at = now_or now context.clock
    reason ← checked_reason text
    raise_if (is_terminal r.status) terminal_job
    let changed = cancelled r reason occurred_at
    save_job context changed
    record_job context changed EventType.job_cancellation_requested occurred_at
    pure changed

  -- The writes of `replay` behind the enqueue. The link to the original is no new version.
  unfoldable pub link_replay :
      JobInstance → JobDeadLetter → JobInstance → Text → Instant → Job JobInstance
  link_replay original letter enqueued reason now = do
    let replayed = record enqueued { replay_of_job_id = some original.id }
    save_job context replayed
    save_letter context (record letter {
      status = LetterStatus.replayed;
      replayed_at = some now;
      replayed_by_user_id = some context.actor_id;
      replay_job_id = some replayed.id;
      replay_reason = some reason;
    })
    let source = record original { state_version = original.state_version + 1; updated_at = now }
    save_job context source
    record_job context source EventType.job_replayed now
    pure replayed

  unfoldable pub replay : ℕ → ℕ → Text → Text → Instant → Job JobInstance
  unfolding require_authorized require_job checked_reason replay_input
  replay job_id new_job_id idempotency_key text now = do
    require_authorized context Permission.manage_workspace
    original ← require_job context job_id
    found ← gets (Repository.dead_letter context job_id)
    raise_if (not (is_dead_lettered original.status)) replay_unavailable
    letter ← some_or found replay_unavailable
    raise_if (not (is_open letter.status)) replay_unavailable
    reason ← checked_reason text
    command ← lift (job_enqueue (replay_input original new_job_id idempotency_key now))
    enqueued ← enqueue context command (some now)
    link_replay original letter enqueued reason now

  unfoldable pub insert_control : ScopeType → Text → Bool → Text → Instant → Job JobOperatorControl
  insert_control scope_type scope_reference paused reason now = do
    id ← new_id context
    let value : JobOperatorControl = record {
      tenant = context.tenant;
      id = id;
      scope_type = scope_type;
      scope_reference = scope_reference;
      paused = paused;
      reason = reason;
      state_version = 1;
      changed_by_user_id = context.actor_id;
      changed_at = now;
    }
    add_control context value
    pure value

  unfoldable pub change_control :
      JobOperatorControl → Bool → Text → Instant → Job JobOperatorControl
  change_control r paused reason now = do
    let value = record r {
      paused = paused;
      reason = reason;
      state_version = r.state_version + 1;
      changed_by_user_id = context.actor_id;
      changed_at = now;
    }
    save_control context value
    pure value

  unfoldable pub write_control :
      ScopeType → Text → Bool → Text → Instant → Option JobOperatorControl → Job JobOperatorControl
  unfolding insert_control change_control
  write_control scope_type scope_reference paused reason now none =
      insert_control scope_type scope_reference paused reason now
  write_control scope_type scope_reference paused reason now (some r) =
      change_control r paused reason now

  unfoldable pub set_paused :
      ScopeType → Text → Bool → Text → ℕ → Option Instant → Job JobOperatorControl
  unfolding require_authorized checked_reason write_control
  set_paused scope_type scope_reference paused text expected_version now = do
    require_authorized context Permission.manage_workspace
    raise_if (not (is_known_scope scope_type)) scope_invalid
    raise_if
        (is_workspace_scope scope_type
          && not (text_eq scope_reference (str_uuid context.tenant.workspace_id)))
        scope_mismatch
    let occurred_at = now_or now context.clock
    reason ← checked_reason text
    found ← gets (Repository.control context scope_type scope_reference)
    raise_if (not (version_of found == expected_version)) version_stale
    value ← write_control scope_type scope_reference paused reason occurred_at found
    record_event context value.id value.state_version EventType.control_changed
        AggregateType.job_control occurred_at
    pure value

  unfoldable pub set_schedule_paused : ℕ → Bool → Text → ℕ → Option Instant → Job JobSchedule
  unfolding require_authorized checked_reason
  set_schedule_paused schedule_id paused text expected_version now = do
    require_authorized context Permission.manage_workspace
    found ← gets (Repository.schedule context schedule_id)
    r ← some_or found schedule_missing
    raise_if (not (r.state_version == expected_version)) version_stale
    raise_if (is_completed r.status) schedule_completed
    _ ← checked_reason text
    let occurred_at = now_or now context.clock
    let value = record r {
      status = if paused then ScheduleStatus.paused else ScheduleStatus.active;
      state_version = r.state_version + 1;
      updated_at = occurred_at;
    }
    save_schedule context value
    record_event context value.id value.state_version
        (if paused then EventType.schedule_paused else EventType.schedule_resumed)
        AggregateType.job_schedule occurred_at
    pure value
