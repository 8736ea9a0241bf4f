-- ===== src/Tasks/Contracts.antt =====
-- app/tasks/contracts.py: the task lifecycle and the validated values.
use wanderra_os.Base.{
  ℕ, Bool, true, false, not, ◌&&◌, ◌||◌, Option, none, some, List, [], ◌∷◌, any, length, ltb, leb,
  ◌==◌, is_some,
}
use wanderra_os.Base.Text.{Text, strip}
use wanderra_os.Base.Result.{Result, ok, err, ◌>>=◌, ◌>>◌, raise_if}
use wanderra_os.Jobs.Contracts.{Instant, DateTime, naive, aware, Classification}

-- What the package raises, one constructor for each message: `denied` is `TaskAuthorizationError`,
-- `version_stale` is `TaskConcurrencyError`, `constraint_violated` is the database's,
-- `context_unbound`, `context_differs` and `cross_workspace` are `ExecutionContextRequiredError`, and
-- all others are `TaskError`.
pub data TaskFailure : Type 0 where
  context_unbound context_differs cross_workspace : TaskFailure
  transition_invalid text_invalid priority_invalid classification_invalid : TaskFailure
  policy_version_invalid due_not_aware due_without_timezone : TaskFailure
  query_invalid query_not_aware : TaskFailure
  task_exists resource_missing task_missing evidence_required participant_invalid : TaskFailure
  cycle_prohibited comment_invalid statement_missing reference_invalid : TaskFailure
  reminder_ineligible task_deleted denied version_stale constraint_violated : TaskFailure

pub data TaskStatus : Type 0 where
  open_task in_progress blocked completed cancelled deleted : TaskStatus

abbrev pub status_eq : TaskStatus → TaskStatus → Bool
status_eq open_task open_task = true
status_eq in_progress in_progress = true
status_eq blocked blocked = true
status_eq completed completed = true
status_eq cancelled cancelled = true
status_eq deleted deleted = true
status_eq _ _ = false

-- `TRANSITIONS`
unfoldable pub transitions : TaskStatus → List TaskStatus
transitions open_task = in_progress ∷ blocked ∷ completed ∷ cancelled ∷ deleted ∷ []
transitions in_progress = open_task ∷ blocked ∷ completed ∷ cancelled ∷ deleted ∷ []
transitions blocked = open_task ∷ in_progress ∷ cancelled ∷ deleted ∷ []
transitions completed = deleted ∷ []
transitions cancelled = deleted ∷ []
transitions deleted = []

unfoldable pub transition_status : TaskStatus → TaskStatus → Result TaskFailure TaskStatus
unfolding transitions
transition_status current target = do
  raise_if (not (any (status_eq target) (transitions current))) transition_invalid
  ok target

unfoldable pub require_task_version : ℕ → ℕ → Result TaskFailure (Unit {0})
require_task_version current expected = raise_if (not (current == expected)) version_stale

pub data Priority : Type 0 where
  low normal high urgent : Priority

-- The fields of `TaskCreate` as they come; a priority or class that has no name is `none`.
pub record TaskInput : Type 0 where
  pub task_id : ℕ
  pub resource_id : ℕ
  pub title : Text
  pub description : Text
  pub priority : Option Priority
  pub classification : Option Classification
  pub policy_version : ℕ
  pub due_at : Option DateTime
  pub timezone : Option Text
  pub source_resource_id : Option ℕ
  pub recurrence_reference : Option Text
  pub completion_evidence_required : Bool

pub record TaskCreate : Type 0 where
  pub task_id : ℕ
  pub resource_id : ℕ
  pub title : Text
  pub description : Text
  pub priority : Priority
  pub classification : Classification
  pub policy_version : ℕ
  pub due_at : Option Instant
  pub timezone : Option Text
  pub source_resource_id : Option ℕ
  pub recurrence_reference : Option Text
  pub completion_evidence_required : Bool

abbrev require_some {ℓ} : {A : Type ℓ} → Option A → TaskFailure → Result TaskFailure A
require_some none e = err e
require_some (some a) e = ok a

-- A datetime that is not given, or is aware.
unfoldable pub require_due : Option DateTime → TaskFailure → Result TaskFailure (Option Instant)
require_due none e = ok none
require_due (some (naive _)) e = err e
require_due (some (aware t)) e = ok (some t)

-- The validators of `TaskCreate`: the two texts are stripped before the contract is checked.
unfoldable pub task_create : TaskInput → Result TaskFailure TaskCreate
unfolding require_due
task_create v = do
  let title = strip v.title
  let description = strip v.description
  raise_if ((length title == 0) || ltb 512 (length title) || ltb 20000 (length description))
      text_invalid
  priority ← require_some v.priority priority_invalid
  classification ← require_some v.classification classification_invalid
  raise_if (ltb v.policy_version 1) policy_version_invalid
  due_at ← require_due v.due_at due_not_aware
  raise_if (not (is_some due_at && is_some v.timezone) && (is_some due_at || is_some v.timezone))
      due_without_timezone
  ok (record {
    task_id = v.task_id;
    resource_id = v.resource_id;
    title = title;
    description = description;
    priority = priority;
    classification = classification;
    policy_version = v.policy_version;
    due_at = due_at;
    timezone = v.timezone;
    source_resource_id = v.source_resource_id;
    recurrence_reference = v.recurrence_reference;
    completion_evidence_required = v.completion_evidence_required;
  })

pub record TaskQuery : Type 0 where
  pub statuses : List TaskStatus
  pub assignee_user_id : Option ℕ
  pub due_before : Option Instant
  pub limit : ℕ

-- The validator of `TaskQuery`, with the boundary as it comes.
unfoldable pub task_query : TaskQuery → Option DateTime → Result TaskFailure TaskQuery
unfolding require_due
task_query q due_before = do
  raise_if ((length q.statuses == 0) || not (leb 1 q.limit && leb q.limit 500)) query_invalid
  boundary ← require_due due_before query_not_aware
  ok (record q { due_before = boundary })
