-- ===== src/Tasks/ReminderJobs.antt =====
-- app/tasks/jobs.py: the scheduler of reminders, a client of the jobs service.
use wanderra_os.Base.{ℕ, Option, none, some, [], ◌++◌, ◌+◌, false}
use wanderra_os.Base.Text.{Text, codes}
use wanderra_os.Base.Json.{integer, string, object, end, field, str_uuid}
use wanderra_os.Base.Result.{Result, ok, err}
use wanderra_os.Base.Action.{Action, ◌>>=◌, pure, lift, some_or}
use wanderra_os.Jobs.Contracts.{Failure, EnqueueInput, job_enqueue, aware, seconds, Instant}
use wanderra_os.Jobs.Models.{Store, Context}
use wanderra_os.Jobs.Repository.{Job}
use wanderra_os.Jobs.Service.Enqueue.{enqueue}
use wanderra_os.Tasks.Models.{Task}

-- The scheduler's own `ValueError`, or what the jobs package raises.
pub data ReminderFailure : Type 0 where
  due_time_missing : ReminderFailure
  refused : Failure → ReminderFailure

unfoldable pub as_refused : {A : Type 0} → Result Failure A → Result ReminderFailure A
as_refused (ok a) = ok a
as_refused (err e) = err (refused e)

unfoldable pub calls : {A : Type 0} → Job A → Action Store ReminderFailure A
unfolding as_refused
calls m s = let (r, t) = m s in (as_refused r, t)

-- `task.timezone or "UTC"`
abbrev timezone_or_utc : Option Text → Text
timezone_or_utc none = codes "UTC"
timezone_or_utc (some []) = codes "UTC"
timezone_or_utc (some zone) = zone

-- `uuid5` is `uuid.uuid5(uuid.NAMESPACE_URL, _)`.
module _ (context : Context) (uuid5 : Text → ℕ) (definition_id : ℕ) where
  -- The arguments of the `JobEnqueue`.
  unfoldable pub reminder_input : Task → Text → Instant → EnqueueInput
  reminder_input r identity_key due_at = record {
    job_id = uuid5 (codes "atlas:task-reminder:" ++ identity_key);
    definition_id = definition_id;
    idempotency_key = codes "task-reminder:" ++ identity_key;
    command_type = codes "task.reminder_due.v1";
    payload = object (
        field (codes "task_id") (string (str_uuid r.id)) (
          field (codes "task_version") (integer false r.version)
            (field (codes "timezone") (string (timezone_or_utc r.timezone)) end)));
    available_at = aware due_at;
    deadline = aware (due_at + seconds 300);
    resource_id = some r.resource_id;
    classification = some r.classification;
    causation_id = none;
  }

  -- `DurableTaskReminderScheduler.enqueue`
  unfoldable pub enqueue_reminder : Task → Text → Action Store ReminderFailure ℕ
  unfolding reminder_input calls
  enqueue_reminder r identity_key = do
    due_at ← some_or r.due_at due_time_missing
    command ← lift (as_refused (job_enqueue (reminder_input r identity_key due_at)))
    value ← calls (enqueue context command none)
    pure value.id
