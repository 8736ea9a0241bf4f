-- ===== src/Tasks/Details.antt =====
-- app/tasks/service.py: what is added to a task, and its reminders.
use wanderra_os.Base.{
  ℕ, Bool, true, false, not, ◌||◌, Option, none, some, ◌∷◌, ◌++◌, length, ltb, ◌==◌,
}
use wanderra_os.Base.Text.{Text, strip}
use wanderra_os.Base.Json.{decimal, str_uuid}
use wanderra_os.Base.Result.{Result, ok, err}
use wanderra_os.Base.Action.{◌>>=◌, ◌>>◌, pure, raise_if, gets, lift, some_or}
use wanderra_os.Tasks.Contracts.{
  TaskFailure, participant_invalid, cycle_prohibited, comment_invalid, statement_missing,
  reference_invalid, reminder_ineligible,
}
use wanderra_os.Tasks.Models.{
  Task, ParticipantKind, TaskParticipant, TaskDependency, TaskComment, TaskCompletionEvidence,
  TaskExternalReference, ReminderStatus, TaskReminder, TaskEvent, TaskPermission, TaskContext,
}
use wanderra_os.Tasks.Repository
use wanderra_os.Tasks.Repository.{
  TaskAction, cancel_reminders, save_task, add_task, insert_participant, insert_dependency,
  insert_comment, insert_evidence, insert_reference, insert_reminder,
}
use wanderra_os.Tasks.Cycle.{creates_cycle}
use wanderra_os.Tasks.Guards.{is_closed, require, require_task, locked, changed}

abbrev pub is_known_kind : ParticipantKind → Bool
is_known_kind ParticipantKind.other = false
is_known_kind _ = true

-- The answer of the search, which is never missing.
abbrev pub prohibits : Option Bool → Bool
prohibits none = true
prohibits (some answer) = answer

-- The job of a reminder, where there is a scheduler.
unfoldable pub reminder_job :
    Option (Task → Text → Result TaskFailure ℕ) → Task → Text → Result TaskFailure (Option ℕ)
reminder_job none r identity = ok none
reminder_job (some schedule) r identity = elim (schedule r identity) [
  | ok job_id ↦ ok (some job_id)
  | err e ↦ err e
]

module _ (context : TaskContext) where
  unfoldable pub add_participant : ℕ → ℕ → ParticipantKind → ℕ → TaskAction TaskParticipant
  unfolding require
  add_participant task_id user_id kind expected_version = do
    require context TaskPermission.update_content
    member ← gets (Repository.active_member context user_id)
    raise_if (not (is_known_kind kind) || not member) participant_invalid
    r ← locked context task_id expected_version
    let value : TaskParticipant = record {
      tenant = context.tenant;
      task_id = r.id;
      user_id = user_id;
      kind = kind;
      added_by_user_id = context.actor_id;
    }
    insert_participant context value
    _ ← changed context r TaskEvent.participant_added context.clock
    pure value

  unfoldable pub add_dependency : ℕ → ℕ → ℕ → TaskAction TaskDependency
  unfolding require require_task
  add_dependency task_id depends_on_task_id expected_version = do
    require context TaskPermission.update_content
    r ← locked context task_id expected_version
    _ ← require_task context depends_on_task_id
    edges ← gets (Repository.dependencies context)
    raise_if
        ((task_id == depends_on_task_id)
          || prohibits (creates_cycle task_id depends_on_task_id edges))
        cycle_prohibited
    let value : TaskDependency = record {
      tenant = context.tenant;
      task_id = r.id;
      depends_on_task_id = depends_on_task_id;
      created_by_user_id = context.actor_id;
    }
    insert_dependency context value
    _ ← changed context r TaskEvent.dependency_added context.clock
    pure value

  unfoldable pub add_comment : ℕ → ℕ → Text → ℕ → TaskAction TaskComment
  unfolding require
  add_comment task_id comment_id body expected_version = do
    require context TaskPermission.update_content
    r ← locked context task_id expected_version
    let text = strip body
    raise_if ((length text == 0) || ltb 20000 (length text)) comment_invalid
    let value : TaskComment = record {
      tenant = context.tenant;
      id = comment_id;
      task_id = r.id;
      body = text;
      classification = r.classification;
      policy_version = r.policy_version;
      created_by_user_id = context.actor_id;
    }
    insert_comment context value
    _ ← changed context r TaskEvent.comment_added context.clock
    pure value

  unfoldable pub add_completion_evidence :
      ℕ → ℕ → Text → ℕ → Option ℕ → Option ℕ → TaskAction TaskCompletionEvidence
  unfolding require
  add_completion_evidence task_id evidence_id statement expected_version resource supersedes = do
    require context TaskPermission.update_content
    r ← locked context task_id expected_version
    let text = strip statement
    raise_if (length text == 0) statement_missing
    let value : TaskCompletionEvidence = record {
      tenant = context.tenant;
      id = evidence_id;
      task_id = r.id;
      evidence_resource_id = resource;
      evidence_digest = context.sha256 text;
      statement = text;
      supersedes_evidence_id = supersedes;
      recorded_by_user_id = context.actor_id;
    }
    insert_evidence context value
    _ ← changed context r TaskEvent.completion_evidence_added context.clock
    pure value

  unfoldable pub link_external :
      ℕ → ℕ → Text → Text → ℕ → Option Text → TaskAction TaskExternalReference
  unfolding require
  link_external task_id reference_id authority_text external_text expected_version version = do
    require context TaskPermission.update_content
    r ← locked context task_id expected_version
    let authority = strip authority_text
    let external_id = strip external_text
    raise_if ((length authority == 0) || (length external_id == 0)) reference_invalid
    let value : TaskExternalReference = record {
      tenant = context.tenant;
      id = reference_id;
      task_id = r.id;
      authority = authority;
      external_id = external_id;
      external_version = version;
      linked_by_user_id = context.actor_id;
    }
    insert_reference context value
    _ ← changed context r TaskEvent.external_reference_linked context.clock
    pure value

  unfoldable pub schedule_reminder : ℕ → ℕ → ℕ → TaskAction TaskReminder
  unfolding require
  schedule_reminder task_id reminder_id expected_version = do
    require context TaskPermission.update_content
    r ← locked context task_id expected_version
    due_at ← some_or r.due_at reminder_ineligible
    timezone ← some_or r.timezone reminder_ineligible
    raise_if (is_closed r.status) reminder_ineligible
    let identity =
        context.sha256
          (str_uuid r.id ++ (58 ∷ context.isoformat due_at) ++ (58 ∷ decimal r.version))
    job_id ← lift (reminder_job context.reminder_scheduler r identity)
    let value : TaskReminder = record {
      tenant = context.tenant;
      id = reminder_id;
      task_id = r.id;
      identity_key = identity;
      due_at = due_at;
      timezone = timezone;
      status = ReminderStatus.scheduled;
      job_id = job_id;
    }
    insert_reminder context value
    _ ← changed context r TaskEvent.reminder_scheduled context.clock
    pure value
