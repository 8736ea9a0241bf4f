-- ===== src/Tasks/Models.antt =====
-- app/tasks/models.py: the rows of the task tables, the rows of other packages that the task
-- queries read, and the execution context. The columns that the database fills are left out.
use wanderra_os.Base.{ℕ, Bool, Option, List}
use wanderra_os.Base.Text.{Text}
use wanderra_os.Base.Result.{Result}
use wanderra_os.Jobs.Contracts.{Instant, Classification}
use wanderra_os.Jobs.Models.{Tenant}
use wanderra_os.Tasks.Contracts.{TaskStatus, Priority, TaskFailure}

pub record Task : Type 0 where
  pub tenant : Tenant
  pub id : ℕ
  pub resource_id : ℕ
  pub title : Text
  pub description : Text
  pub status : TaskStatus
  pub priority : Priority
  pub classification : Classification
  pub policy_version : ℕ
  pub due_at : Option Instant
  pub timezone : Option Text
  pub recurrence_reference : Option Text
  pub source_resource_id : Option ℕ
  pub completion_evidence_required : Bool
  pub version : ℕ
  pub created_by_user_id : ℕ
  pub created_at : Instant
  pub updated_at : Instant
  pub completed_at : Option Instant
  pub deleted_at : Option Instant

-- `other` is a text that names no kind.
pub data ParticipantKind : Type 0 where
  assignee watcher other : ParticipantKind

pub record TaskParticipant : Type 0 where
  pub tenant : Tenant
  pub task_id : ℕ
  pub user_id : ℕ
  pub kind : ParticipantKind
  pub added_by_user_id : ℕ

pub record TaskDependency : Type 0 where
  pub tenant : Tenant
  pub task_id : ℕ
  pub depends_on_task_id : ℕ
  pub created_by_user_id : ℕ

pub record TaskComment : Type 0 where
  pub tenant : Tenant
  pub id : ℕ
  pub task_id : ℕ
  pub body : Text
  pub classification : Classification
  pub policy_version : ℕ
  pub created_by_user_id : ℕ

pub record TaskCompletionEvidence : Type 0 where
  pub tenant : Tenant
  pub id : ℕ
  pub task_id : ℕ
  pub evidence_resource_id : Option ℕ
  pub evidence_digest : Text
  pub statement : Text
  pub supersedes_evidence_id : Option ℕ
  pub recorded_by_user_id : ℕ

pub record TaskExternalReference : Type 0 where
  pub tenant : Tenant
  pub id : ℕ
  pub task_id : ℕ
  pub authority : Text
  pub external_id : Text
  pub external_version : Option Text
  pub linked_by_user_id : ℕ

pub data ReminderStatus : Type 0 where
  scheduled cancelled dispatched : ReminderStatus

pub record TaskReminder : Type 0 where
  pub tenant : Tenant
  pub id : ℕ
  pub task_id : ℕ
  pub identity_key : Text
  pub due_at : Instant
  pub timezone : Text
  pub status : ReminderStatus
  pub job_id : Option ℕ

-- What the task queries read of `Resource`: whether it is a task, and active.
pub record ResourceRow : Type 0 where
  pub workspace_id : ℕ
  pub id : ℕ
  pub is_task : Bool
  pub is_active : Bool

-- What the task queries read of `WorkspaceMembership`.
pub record MemberRow : Type 0 where
  pub workspace_id : ℕ
  pub user_id : ℕ
  pub is_active : Bool

pub data TaskEvent : Type 0 where
  created participant_added dependency_added comment_added : TaskEvent
  completion_evidence_added external_reference_linked reminder_scheduled : TaskEvent
  changed_to : TaskStatus → TaskEvent

pub record TaskAudit : Type 0 where
  pub workspace_id : ℕ
  pub actor_id : ℕ
  pub action : TaskEvent
  pub task_id : ℕ
  pub version : ℕ
  pub status : TaskStatus
  pub classification : Classification

-- The outbox row; what is the same in every row, or repeats a column, is left out, and so is its
-- random identifier.
pub record TaskOutbox : Type 0 where
  pub workspace_id : ℕ
  pub actor_id : ℕ
  pub event_type : TaskEvent
  pub aggregate_id : ℕ
  pub aggregate_sequence : ℕ
  pub classification : Classification
  pub resource_id : ℕ
  pub status : TaskStatus
  pub policy_version : ℕ
  pub recorded_at : Instant

pub record TaskStore : Type 0 where
  pub tasks : List Task
  pub participants : List TaskParticipant
  pub dependencies : List TaskDependency
  pub comments : List TaskComment
  pub evidence : List TaskCompletionEvidence
  pub references : List TaskExternalReference
  pub reminders : List TaskReminder
  pub resources : List ResourceRow
  pub members : List MemberRow
  pub audit : List TaskAudit
  pub outbox : List TaskOutbox

pub data TaskPermission : Type 0 where
  read_content update_content delete_content : TaskPermission

-- The context and what the service is constructed with or calls. The reminder scheduler, if there
-- is one, is given the task and the identity of the reminder, and returns a job's identifier.
-- `is_bound` tells that the session has an execution context, and `is_current` that it is this one.
pub record TaskContext : Type 0 where
  pub tenant : Tenant
  pub actor_id : ℕ
  pub authorize : TaskPermission → Bool
  pub clock : Instant
  pub sha256 : Text → Text
  pub isoformat : Instant → Text
  pub reminder_scheduler : Option (Task → Text → Result TaskFailure ℕ)
  pub is_bound : Bool
  pub is_current : Bool
