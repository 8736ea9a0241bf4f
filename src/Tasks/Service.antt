-- ===== src/Tasks/Service.antt =====
-- app/tasks/service.py: `create`, `get`, `list` and `transition`.
use wanderra_os.Base.{ℕ, not, ◌&&◌, Option, none, some, List, ◌==◌, is_some, if◌then◌else◌}
use wanderra_os.Base.Action.{◌>>=◌, ◌>>◌, pure, raise_if, gets, lift}
use wanderra_os.Jobs.Contracts.{Instant}
use wanderra_os.Tasks.Contracts.{
  TaskStatus, transition_status, TaskCreate, TaskQuery, task_exists, resource_missing, task_missing,
  evidence_required,
}
use wanderra_os.Tasks.Models.{Task, TaskEvent, TaskPermission, TaskContext}
use wanderra_os.Tasks.Repository
use wanderra_os.Tasks.Repository.{
  TaskAction, cancel_reminders, save_task, add_task, insert_participant, insert_dependency,
  insert_comment, insert_evidence, insert_reference, insert_reminder,
}
use wanderra_os.Tasks.Guards.{
  is_completed_status, is_deleted_status, is_closed, require, require_task, locked, record_task,
  changed,
}

abbrev pub now_or : Option Instant → Instant → Instant
now_or none clock = clock
now_or (some t) clock = t

abbrev pub permission_for : TaskStatus → TaskPermission
permission_for target =
    if is_deleted_status target
    then TaskPermission.delete_content
    else TaskPermission.update_content

-- The task as `transition` leaves it, but for its version.
unfoldable pub moved : Task → TaskStatus → Instant → Task
moved r target now = record r {
  status = target;
  completed_at = if is_completed_status target then some now else r.completed_at;
  deleted_at = if is_deleted_status target then some now else r.deleted_at;
}

module _ (context : TaskContext) where
  unfoldable pub create : TaskCreate → Option Instant → TaskAction Task
  unfolding require
  create command now = do
    require context TaskPermission.update_content
    existing ← gets (Repository.task context command.task_id)
    raise_if (is_some existing) task_exists
    resource ← gets (Repository.task_resource context command.resource_id)
    raise_if (not resource) resource_missing
    let occurred = now_or now context.clock
    let value : Task = record {
      tenant = context.tenant;
      id = command.task_id;
      resource_id = command.resource_id;
      title = command.title;
      description = command.description;
      status = TaskStatus.open_task;
      priority = command.priority;
      classification = command.classification;
      policy_version = command.policy_version;
      due_at = command.due_at;
      timezone = command.timezone;
      recurrence_reference = command.recurrence_reference;
      source_resource_id = command.source_resource_id;
      completion_evidence_required = command.completion_evidence_required;
      version = 1;
      created_by_user_id = context.actor_id;
      created_at = occurred;
      updated_at = occurred;
      completed_at = none;
      deleted_at = none;
    }
    add_task context value
    record_task context value TaskEvent.created occurred
    pure value

  unfoldable pub get : ℕ → TaskAction Task
  unfolding require require_task
  get task_id = do
    require context TaskPermission.read_content
    r ← require_task context task_id
    raise_if (is_deleted_status r.status) task_missing
    pure r

  unfoldable pub list : TaskQuery → TaskAction (List Task)
  unfolding require
  list query = do
    require context TaskPermission.read_content
    gets (Repository.list_tasks context query)

  -- `cancel_reminders`, where the task is closed.
  unfoldable pub close_reminders : Task → TaskAction (Unit {0})
  close_reminders r = if is_closed r.status then cancel_reminders context r.id else pure tt

  unfoldable pub transition : ℕ → TaskStatus → ℕ → Option Instant → TaskAction Task
  unfolding require moved
  transition task_id target expected_version now = do
    require context (permission_for target)
    r ← locked context task_id expected_version
    _ ← lift (transition_status r.status target)
    evidence ← gets (Repository.evidence_count context r.id)
    raise_if (is_completed_status target && r.completion_evidence_required && (evidence == 0))
        evidence_required
    let occurred = now_or now context.clock
    let value = moved r target occurred
    close_reminders value
    changed context value (TaskEvent.changed_to target) occurred
