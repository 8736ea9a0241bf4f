-- ===== src/Tasks/Repository.antt =====
-- app/tasks/repository.py: the queries, the inserts under the keys of app/tasks/models.py, and the
-- flush of a task's assignments.
use wanderra_os.Base.{
  ℕ, Bool, true, false, not, ◌&&◌, ◌||◌, Option, none, some, List, [], ◌∷◌, ◌++◌, any, map, ltb,
  leb, ◌==◌, is_some, if◌then◌else◌,
}
use wanderra_os.Base.Text.{text_eq}
use wanderra_os.Base.Table.{find, update, select, count_where, order_by}
use wanderra_os.Base.Action.{Action, ◌>>=◌, ◌>>◌, raise_if, gets, modify}
use wanderra_os.Jobs.Contracts.{Instant}
use wanderra_os.Jobs.Repository.{tenant_eq, take}
use wanderra_os.Jobs.Models.{Tenant}
use wanderra_os.Tasks.Contracts.{
  TaskFailure, status_eq, TaskQuery, constraint_violated, context_unbound, context_differs,
  cross_workspace,
}
use wanderra_os.Tasks.Models.{
  TaskOutbox, Task, ParticipantKind, TaskParticipant, TaskDependency, TaskComment,
  TaskCompletionEvidence, TaskExternalReference, ReminderStatus, TaskReminder, TaskStore,
  TaskContext,
}

abbrev pub TaskAction : Type 0 → Type 0
TaskAction = Action TaskStore TaskFailure

abbrev pub kind_eq : ParticipantKind → ParticipantKind → Bool
kind_eq ParticipantKind.assignee ParticipantKind.assignee = true
kind_eq ParticipantKind.watcher ParticipantKind.watcher = true
kind_eq ParticipantKind.other ParticipantKind.other = true
kind_eq _ _ = false

abbrev pub is_scheduled : ReminderStatus → Bool
is_scheduled ReminderStatus.scheduled = true
is_scheduled _ = false

-- `order_by(due_at.asc().nulls_last(), created_at, id)`
unfoldable pub due_order : Task → Task → Bool
due_order a b =
    let later =
      ltb a.created_at b.created_at || ((a.created_at == b.created_at) && ltb a.id b.id) in
    elim a.due_at [
      | none ↦ not (is_some b.due_at) && later
      | some s ↦ elim b.due_at [ none ↦ true | some t ↦ ltb s t || ((s == t) && later) ]
    ]

-- `due_at <= due_before`, where a boundary is given; a task without a due time fails it.
abbrev due_by : Option Instant → Option Instant → Bool
due_by none due_at = true
due_by (some boundary) none = false
due_by (some boundary) (some t) = leb t boundary

module _ (context : TaskContext) where
  -- `workspace_id == self.context.tenant.workspace_id`
  abbrev pub in_workspace : ℕ → Bool
  in_workspace workspace_id = workspace_id == context.tenant.workspace_id

  abbrev pub is_task : ℕ → Task → Bool
  is_task task_id r = in_workspace r.tenant.workspace_id && (r.id == task_id)

  unfoldable pub task : ℕ → TaskStore → Option Task
  task task_id s = find (is_task task_id) s.tasks

  -- Whether there is an active resource for a task under the identifier.
  unfoldable pub task_resource : ℕ → TaskStore → Bool
  task_resource resource_id s =
      any (λ r. in_workspace r.workspace_id && (r.id == resource_id) && r.is_task && r.is_active)
        s.resources

  -- The join with the participants, where an assignee is given.
  unfoldable pub assigned_to : TaskStore → Option ℕ → Task → Bool
  assigned_to s none r = true
  assigned_to s (some user_id) r =
      any
        (λ p.
          (p.tenant.workspace_id == r.tenant.workspace_id)
          && (p.task_id == r.id)
          && kind_eq p.kind ParticipantKind.assignee
          && (p.user_id == user_id))
        s.participants

  unfoldable pub list_tasks : TaskQuery → TaskStore → List Task
  unfolding due_order assigned_to
  list_tasks q s = take q.limit (
      order_by due_order (
        select
          (λ r.
            in_workspace r.tenant.workspace_id
            && any (status_eq r.status) q.statuses
            && due_by q.due_before r.due_at
            && assigned_to s q.assignee_user_id r)
          s.tasks))

  unfoldable pub active_member : ℕ → TaskStore → Bool
  active_member user_id s =
      any (λ r. in_workspace r.workspace_id && (r.user_id == user_id) && r.is_active) s.members

  unfoldable pub dependencies : TaskStore → List (ℕ × ℕ)
  dependencies s =
      map (λ r. (r.task_id, r.depends_on_task_id))
        (select (λ r. in_workspace r.tenant.workspace_id) s.dependencies)

  unfoldable pub evidence_count : ℕ → TaskStore → ℕ
  evidence_count task_id s =
      count_where (λ r. in_workspace r.tenant.workspace_id && (r.task_id == task_id)) s.evidence

  abbrev pub cancel_reminder : ℕ → TaskReminder → TaskReminder
  cancel_reminder task_id r =
      if in_workspace r.tenant.workspace_id && (r.task_id == task_id) && is_scheduled r.status
      then record r { status = ReminderStatus.cancelled }
      else r

  unfoldable pub cancel_reminders : ℕ → TaskAction (Unit {0})
  cancel_reminders task_id =
      modify (λ s. record s { reminders = map (cancel_reminder task_id) s.reminders })

  -- The assignments to a loaded task are written back to the row that the query found.
  unfoldable pub save_task : Task → TaskAction (Unit {0})
  save_task r = modify (λ s. record s { tasks = update (is_task r.id) (λ _. r) s.tasks })

module _ (context : TaskContext) where
  -- `require_workspace` of `ContextBoundRepository`, with what `add` does behind it.
  abbrev pub requiring : Tenant → TaskAction (Unit {0}) → TaskAction (Unit {0})
  requiring tenant rest = do
    raise_if (not context.is_bound) context_unbound
    raise_if (not context.is_current) context_differs
    raise_if (not (in_workspace context tenant.workspace_id)) cross_workspace
    rest

  -- `pk_tasks` and `uq_tasks_resource`
  unfoldable pub add_task : Task → TaskAction (Unit {0})
  add_task r = requiring r.tenant do
    raise_if
        (any
          (λ x. tenant_eq x.tenant r.tenant && ((x.id == r.id) || (x.resource_id == r.resource_id)))
          (← gets (λ s. s.tasks)))
        constraint_violated
    modify (λ s. record s { tasks = s.tasks ++ (r ∷ []) })

  -- `pk_task_participants`
  unfoldable pub insert_participant : TaskParticipant → TaskAction (Unit {0})
  insert_participant r = requiring r.tenant do
    raise_if
        (any
          (λ x.
            tenant_eq x.tenant r.tenant
            && (x.task_id == r.task_id)
            && (x.user_id == r.user_id)
            && kind_eq x.kind r.kind)
          (← gets (λ s. s.participants)))
        constraint_violated
    modify (λ s. record s { participants = s.participants ++ (r ∷ []) })

  -- `pk_task_dependencies`
  unfoldable pub insert_dependency : TaskDependency → TaskAction (Unit {0})
  insert_dependency r = requiring r.tenant do
    raise_if
        (any
          (λ x.
            tenant_eq x.tenant r.tenant
            && (x.task_id == r.task_id)
            && (x.depends_on_task_id == r.depends_on_task_id))
          (← gets (λ s. s.dependencies)))
        constraint_violated
    modify (λ s. record s { dependencies = s.dependencies ++ (r ∷ []) })

  -- `pk_task_comments`
  unfoldable pub insert_comment : TaskComment → TaskAction (Unit {0})
  insert_comment r = requiring r.tenant do
    raise_if (any (λ x. tenant_eq x.tenant r.tenant && (x.id == r.id)) (← gets (λ s. s.comments)))
        constraint_violated
    modify (λ s. record s { comments = s.comments ++ (r ∷ []) })

  -- `pk_task_completion_evidence` and `uq_task_evidence_digest`
  unfoldable pub insert_evidence : TaskCompletionEvidence → TaskAction (Unit {0})
  insert_evidence r = requiring r.tenant do
    raise_if
        (any
          (λ x.
            tenant_eq x.tenant r.tenant
            && ((x.id == r.id)
                || ((x.task_id == r.task_id) && text_eq x.evidence_digest r.evidence_digest)))
          (← gets (λ s. s.evidence)))
        constraint_violated
    modify (λ s. record s { evidence = s.evidence ++ (r ∷ []) })

  -- `pk_task_external_references` and `uq_task_external_authority`
  unfoldable pub insert_reference : TaskExternalReference → TaskAction (Unit {0})
  insert_reference r = requiring r.tenant do
    raise_if
        (any
          (λ x.
            tenant_eq x.tenant r.tenant
            && ((x.id == r.id)
                || (text_eq x.authority r.authority && text_eq x.external_id r.external_id)))
          (← gets (λ s. s.references)))
        constraint_violated
    modify (λ s. record s { references = s.references ++ (r ∷ []) })

  -- `pk_task_reminders` and `uq_task_reminder_identity`
  unfoldable pub insert_reminder : TaskReminder → TaskAction (Unit {0})
  insert_reminder r = requiring r.tenant do
    raise_if
        (any
          (λ x.
            tenant_eq x.tenant r.tenant
            && ((x.id == r.id) || text_eq x.identity_key r.identity_key))
          (← gets (λ s. s.reminders)))
        constraint_violated
    modify (λ s. record s { reminders = s.reminders ++ (r ∷ []) })

-- `uq_outbox_aggregate_sequence` of app/tenancy/models.py
unfoldable pub outbox_taken : TaskOutbox → List TaskOutbox → Bool
outbox_taken r rows =
    any
      (λ x.
        (x.workspace_id == r.workspace_id)
        && (x.aggregate_id == r.aggregate_id)
        && (x.aggregate_sequence == r.aggregate_sequence))
      rows

unfoldable pub insert_outbox : TaskOutbox → TaskAction (Unit {0})
insert_outbox r = do
  raise_if (outbox_taken r (← gets (λ s. s.outbox))) constraint_violated
  modify (λ s. record s { outbox = s.outbox ++ (r ∷ []) })
