-- ===== src/Tasks/Tests.antt =====
-- app/tasks run on small stores: the theorems applied to concrete tasks.
use wanderra_os.Base.{
  ◌<◌, ◌≡◌, refl, Bool, true, false, none, some, List, [], ◌∷◌, ◌++◌, length, arith,
}
use wanderra_os.Base.Text.{codes}
use wanderra_os.Base.Table.{find, update, select, count_where}
use wanderra_os.Base.Result.{ok, err}
use wanderra_os.Base.Action.{◌>>=◌}
use wanderra_os.Jobs.Contracts.{Classification}
use wanderra_os.Tasks.Contracts.{
  TaskStatus, Priority, version_stale, participant_invalid, transition_status, require_task_version,
}
use wanderra_os.Tasks.Models.{
  ParticipantKind, Task, TaskDependency, TaskCompletionEvidence, ReminderStatus, TaskReminder,
  TaskEvent, TaskAudit, TaskOutbox, TaskStore, TaskContext,
}
use wanderra_os.Tasks.Repository
use wanderra_os.Tasks.Cycle.{Edge, creates_cycle, search, expand}
use wanderra_os.Tasks.Acyclic.{PathTo}
use wanderra_os.Tasks.Search.{creates_cycle-PathTo}
use wanderra_os.Tasks.Guards.{locked, changed}
use wanderra_os.Tasks.Service.{transition, close_reminders}
use wanderra_os.Tasks.Details.{
  add_participant, add_dependency, add_comment, add_completion_evidence, link_external,
  schedule_reminder,
}
use wanderra_os.Tasks.Locked.{stale_version_refused}
use wanderra_os.Tasks.Dependencies.{IsAcyclic, add_dependency-IsAcyclic}
use wanderra_os.Tasks.Transitions.{Transitioned, transition-Transitioned}

abbrev context : TaskContext
context = record {
  tenant = record { organization_id = 1; workspace_id = 1; cell_id = 1 };
  actor_id = 5;
  authorize = λ _. true;
  clock = 1000;
  sha256 = λ text. text;
  isoformat = λ t. t ∷ [];
  reminder_scheduler = none;
  is_bound = true;
  is_current = true;
}

-- A task that needs evidence before its completion.
abbrev report : Task
report = record {
  tenant = context.tenant;
  id = 7;
  resource_id = 70;
  title = codes "report";
  description = [];
  status = TaskStatus.in_progress;
  priority = Priority.normal;
  classification = Classification.internal;
  policy_version = 1;
  due_at = some 9000;
  timezone = some (codes "UTC");
  recurrence_reference = none;
  source_resource_id = none;
  completion_evidence_required = true;
  version = 3;
  created_by_user_id = 5;
  created_at = 1;
  updated_at = 1;
  completed_at = none;
  deleted_at = none;
}

abbrev draft : Task
draft = record report { id = 8; resource_id = 80; version = 1 }

abbrev proof : TaskCompletionEvidence
proof = record {
  tenant = context.tenant;
  id = 20;
  task_id = 7;
  evidence_resource_id = none;
  evidence_digest = codes "digest";
  statement = codes "done";
  supersedes_evidence_id = none;
  recorded_by_user_id = 5;
}

abbrev reminder : TaskReminder
reminder = record {
  tenant = context.tenant;
  id = 30;
  task_id = 7;
  identity_key = codes "identity";
  due_at = 9000;
  timezone = codes "UTC";
  status = ReminderStatus.scheduled;
  job_id = none;
}

abbrev store : TaskStore
store = record {
  tasks = report ∷ draft ∷ [];
  participants = [];
  dependencies = [];
  comments = [];
  evidence = proof ∷ [];
  references = [];
  reminders = reminder ∷ [];
  resources = [];
  members = [];
  audit = [];
  outbox = [];
}

report-found : Repository.task context 7 store ≡ some report
unfolding Repository.task find
report-found = refl

-- A chain of two edges, closed by a third.
abbrev chain : List Edge
chain = (1, 2) ∷ (2, 3) ∷ []

chain-closed : creates_cycle 3 1 chain ≡ some true
unfolding creates_cycle search expand
chain-closed = refl

chain-extended : creates_cycle 4 1 chain ≡ some false
unfolding creates_cycle search expand
chain-extended = refl

creates_cycle-PathTo_example :
    (answer : Bool) × (creates_cycle 3 1 chain ≡ some answer)
    × (answer ≡ true → PathTo chain 3 1)
    × (answer ≡ false → ¬ PathTo chain 3 1)
creates_cycle-PathTo_example = creates_cycle-PathTo 3 1 chain (omega arith)

stale_version_refused_example :
    (transition context 7 TaskStatus.completed 2 none store ≡ (err version_stale, store))
    × (add_participant context 7 8 ParticipantKind.watcher 2 store
        ≡ (err participant_invalid, store))
    × (add_dependency context 7 8 2 store ≡ (err version_stale, store))
    × (add_comment context 7 8 (codes "text") 2 store ≡ (err version_stale, store))
    × (add_completion_evidence context 7 8 (codes "text") 2 none none store
        ≡ (err version_stale, store))
    × (link_external context 7 8 (codes "text") (codes "second") 2 none store
        ≡ (err version_stale, store))
    × (schedule_reminder context 7 8 2 store ≡ (err version_stale, store))
unfolding Repository.active_member
stale_version_refused_example =
    stale_version_refused context 7 2 store report TaskStatus.completed none 8
      ParticipantKind.watcher (codes "text") (codes "second") none none none (λ _. refl)
      report-found (omega arith)

abbrev finished : Task
finished = record report {
  status = TaskStatus.completed;
  completed_at = some 2000;
  version = 4;
  updated_at = 2000;
}

abbrev event : TaskEvent
event = TaskEvent.changed_to TaskStatus.completed

abbrev finished_audit : TaskAudit
finished_audit = record {
  workspace_id = 1;
  actor_id = 5;
  action = event;
  task_id = 7;
  version = 4;
  status = TaskStatus.completed;
  classification = Classification.internal;
}

abbrev finished_outbox : TaskOutbox
finished_outbox = record {
  workspace_id = 1;
  actor_id = 5;
  event_type = event;
  aggregate_id = 7;
  aggregate_sequence = 4;
  classification = Classification.internal;
  resource_id = 70;
  status = TaskStatus.completed;
  policy_version = 1;
  recorded_at = 2000;
}

abbrev finished_store : TaskStore
finished_store = record store {
  tasks = finished ∷ draft ∷ [];
  reminders = record reminder { status = ReminderStatus.cancelled } ∷ [];
  audit = finished_audit ∷ [];
  outbox = finished_outbox ∷ [];
}

report-finishes :
    transition context 7 TaskStatus.completed 3 (some 2000) store ≡ (ok finished, finished_store)
unfolding transition ◌>>=◌ locked Repository.task find require_task_version transition_status
    Repository.evidence_count count_where close_reminders Repository.cancel_reminders changed
    Repository.save_task update Repository.insert_outbox Repository.outbox_taken
report-finishes = refl

transition-Transitioned_example :
    Transitioned context 7 TaskStatus.completed 3 store finished finished_store
transition-Transitioned_example =
    transition-Transitioned context 7 TaskStatus.completed 3 (some 2000) store {r = finished}
      {t = finished_store} report-finishes

abbrev link : TaskDependency
link = record {
  tenant = context.tenant;
  task_id = 7;
  depends_on_task_id = 8;
  created_by_user_id = 5;
}

abbrev linked_store : TaskStore
linked_store = record store {
  tasks = record report { version = 4; updated_at = 1000 } ∷ draft ∷ [];
  dependencies = link ∷ [];
  audit =
      record finished_audit { action = TaskEvent.dependency_added; status = TaskStatus.in_progress }
      ∷ [];
  outbox =
      record finished_outbox {
        event_type = TaskEvent.dependency_added;
        status = TaskStatus.in_progress;
        recorded_at = 1000;
      }
      ∷ [];
}

report-linked : add_dependency context 7 8 3 store ≡ (ok link, linked_store)
unfolding add_dependency ◌>>=◌ locked Repository.task find require_task_version creates_cycle search
    Repository.dependencies select expand Repository.insert_dependency changed Repository.save_task
    update Repository.insert_outbox Repository.outbox_taken
report-linked = refl

nothing-IsAcyclic : IsAcyclic (Repository.dependencies context store)
unfolding Repository.dependencies select
nothing-IsAcyclic a b edge path = absurd edge

nothing-short : length (Repository.dependencies context store) < 10000
unfolding Repository.dependencies select
nothing-short = omega arith

add_dependency-IsAcyclic_example :
    (Repository.dependencies context linked_store
      ≡ Repository.dependencies context store ++ ((7, 8) ∷ []))
    × IsAcyclic (Repository.dependencies context linked_store)
add_dependency-IsAcyclic_example =
    add_dependency-IsAcyclic context 7 8 3 store {r = link} {t = linked_store} nothing-IsAcyclic
      nothing-short report-linked
