-- ===== src/Tasks/Guards.antt =====
-- app/tasks/service.py: the private checks of `TaskService`, and the event and version of a change.
use wanderra_os.Base.{ℕ, ◌+◌, Bool, true, false, not, [], ◌∷◌, ◌++◌}
use wanderra_os.Base.Action.{◌>>=◌, ◌>>◌, pure, raise_if, gets, modify, lift, some_or}
use wanderra_os.Jobs.Contracts.{Instant}
use wanderra_os.Tasks.Contracts.{
  TaskStatus, status_eq, require_task_version, task_missing, task_deleted, denied,
}
use wanderra_os.Tasks.Models.{Task, TaskEvent, TaskAudit, TaskOutbox, TaskPermission, TaskContext}
use wanderra_os.Tasks.Repository
use wanderra_os.Tasks.Repository.{
  TaskAction, cancel_reminders, save_task, add_task, insert_participant, insert_dependency,
  insert_comment, insert_evidence, insert_reference, insert_reminder, insert_outbox,
}

abbrev pub is_completed_status : TaskStatus → Bool
is_completed_status status = status_eq status TaskStatus.completed

abbrev pub is_deleted_status : TaskStatus → Bool
is_deleted_status status = status_eq status TaskStatus.deleted

-- `status in {COMPLETED, CANCELLED, DELETED}`
abbrev pub is_closed : TaskStatus → Bool
is_closed TaskStatus.completed = true
is_closed TaskStatus.cancelled = true
is_closed TaskStatus.deleted = true
is_closed _ = false

module _ (context : TaskContext) where
  -- `_require`
  unfoldable pub require : TaskPermission → TaskAction (Unit {0})
  require permission = raise_if (not (context.authorize permission)) denied

  -- `_task`
  unfoldable pub require_task : ℕ → TaskAction Task
  require_task task_id = do
    found ← gets (Repository.task context task_id)
    some_or found task_missing

  -- `_locked`
  unfoldable pub locked : ℕ → ℕ → TaskAction Task
  locked task_id expected_version = do
    found ← gets (Repository.task context task_id)
    r ← some_or found task_missing
    lift (require_task_version r.version expected_version)
    raise_if (is_deleted_status r.status) task_deleted
    pure r

  unfoldable pub task_audit : Task → TaskEvent → TaskAudit
  task_audit r event = record {
    workspace_id = context.tenant.workspace_id;
    actor_id = context.actor_id;
    action = event;
    task_id = r.id;
    version = r.version;
    status = r.status;
    classification = r.classification;
  }

  unfoldable pub task_outbox : Task → TaskEvent → Instant → TaskOutbox
  task_outbox r event now = record {
    workspace_id = r.tenant.workspace_id;
    actor_id = context.actor_id;
    event_type = event;
    aggregate_id = r.id;
    aggregate_sequence = r.version;
    classification = r.classification;
    resource_id = r.resource_id;
    status = r.status;
    policy_version = r.policy_version;
    recorded_at = now;
  }

  -- `_record`
  unfoldable pub record_task : Task → TaskEvent → Instant → TaskAction (Unit {0})
  unfolding task_audit task_outbox
  record_task r event now = do
    modify (λ s. record s { audit = s.audit ++ (task_audit r event ∷ []) })
    insert_outbox (task_outbox r event now)

  -- `_changed`
  unfoldable pub changed : Task → TaskEvent → Instant → TaskAction Task
  unfolding record_task
  changed r event now = do
    let next = record r { version = r.version + 1; updated_at = now }
    save_task context next
    record_task next event now
    pure next
