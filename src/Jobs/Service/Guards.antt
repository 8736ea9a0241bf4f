-- ===== src/Jobs/Service/Guards.antt =====
-- app/jobs/service.py: the private checks that the methods share, and the retry of a job whose
-- attempt has ended.
use wanderra_os.Base.{
  ℕ, ◌+◌, Bool, true, false, not, ◌&&◌, ◌||◌, Option, none, some, length, ltb, ◌==◌,
}
use wanderra_os.Base.Text.{Text, strip, text_eq}
use wanderra_os.Base.Action.{◌>>=◌, ◌>>◌, pure, raise, raise_if, gets, lift, some_or}
use wanderra_os.Jobs.Contracts.{
  Instant, FailureCategory, JobStatus, AttemptStatus, RetryDecision, retry_policy, decide_retry,
  unauthorized, job_missing, definition_missing, no_live_lease, no_running_attempt, reason_invalid,
  assertion_failed,
}
use wanderra_os.Jobs.Models.{
  JobDefinition, JobInstance, JobAttempt, LetterStatus, EventType, AggregateType, Permission,
  Context,
}
use wanderra_os.Jobs.Repository
use wanderra_os.Jobs.Repository.{Job, is_running}
use wanderra_os.Jobs.Session.{save_job, add_dead_letter, new_id, record_event}

-- `_clear_lease`
abbrev pub clear_lease : JobInstance → JobInstance
clear_lease r = record r { lease_owner = none; lease_expires_at = none; heartbeat_at = none }

abbrev pub is_running_attempt : AttemptStatus → Bool
is_running_attempt AttemptStatus.running = true
is_running_attempt _ = false

-- An owner that is set, and is the worker.
abbrev pub owns : Option Text → Text → Bool
owns none worker = false
owns (some owner) worker = text_eq owner worker

-- An expiry that is set, and lies after the instant.
abbrev pub is_live : Option Instant → Instant → Bool
is_live none now = false
is_live (some t) now = ltb now t

-- The conditions of `_leased_job` that make a lease live.
unfoldable pub holds_lease : JobInstance → Text → Instant → Bool
holds_lease r worker_id now =
    is_running r.status && owns r.lease_owner worker_id && is_live r.lease_expires_at now

-- `reason.strip()`, with its length.
unfoldable pub checked_reason : Text → Job Text
checked_reason text = do
  let reason = strip text
  raise_if ((length reason == 0) || ltb 256 (length reason)) reason_invalid
  pure reason

module _ (context : Context) where
  -- `_require_authorized`
  unfoldable pub require_authorized : Permission → Job (Unit {0})
  require_authorized permission = raise_if (not (context.authorize permission)) unauthorized

  -- `_require_job`
  unfoldable pub require_job : ℕ → Job JobInstance
  require_job job_id = do found ← gets (Repository.job context job_id); some_or found job_missing

  -- `_require_definition`
  unfoldable pub require_definition : ℕ → Job JobDefinition
  require_definition definition_id = do
    found ← gets (Repository.definition context definition_id)
    some_or found definition_missing

  -- `_require_attempt`
  unfoldable pub require_attempt : JobInstance → Job JobAttempt
  require_attempt r = do
    found ← gets (Repository.current_attempt context r)
    attempt ← some_or found no_running_attempt
    raise_if (not (is_running_attempt attempt.status)) no_running_attempt
    pure attempt

  -- `_leased_job`
  unfoldable pub leased_job : ℕ → Text → Instant → Job JobInstance
  unfolding require_authorized require_job holds_lease
  leased_job job_id worker_id now = do
    require_authorized Permission.update_content
    r ← require_job job_id
    raise_if (not (holds_lease r worker_id now)) no_live_lease
    pure r

  -- `_record` for a job.
  abbrev pub record_job : JobInstance → EventType → Instant → Job (Unit {0})
  record_job r event now = record_event context r.id r.state_version event AggregateType.job now

  -- `_dead_letter`
  unfoldable pub dead_letter_job : JobInstance → FailureCategory → Text → Instant → Job JobInstance
  dead_letter_job r category error_code now = do
    let dead = record r { status = JobStatus.dead_lettered; completed_at = some now }
    save_job context dead
    id ← new_id context
    add_dead_letter context (record {
      tenant = context.tenant;
      id = id;
      job_id = dead.id;
      failure_category = category;
      error_code = error_code;
      status = LetterStatus.open_letter;
      created_at = now;
      replayed_at = none;
      replayed_by_user_id = none;
      replay_job_id = none;
      replay_reason = none;
    })
    record_job dead EventType.job_dead_lettered now
    pure dead

  -- The job that waits for its next attempt.
  unfoldable pub retry_job : JobInstance → Option Instant → EventType → Instant → Job JobInstance
  retry_job r none event now = do save_job context r; raise assertion_failed
  retry_job r (some retry_at) event now = do
    let waiting = record r { status = JobStatus.retry_wait; available_at = retry_at }
    save_job context waiting
    record_job waiting event now
    pure waiting

  unfoldable pub expire_job : JobInstance → Instant → Job JobInstance
  expire_job r now = do
    let expired = record r { status = JobStatus.expired; completed_at = some now }
    save_job context expired
    record_job expired EventType.job_expired now
    pure expired

  -- The branches on the decision, with the event that a retry records.
  unfoldable pub follow_decision :
      RetryDecision → JobInstance → FailureCategory → Text → EventType → Instant → Job JobInstance
  unfolding retry_job expire_job dead_letter_job
  follow_decision d r category error_code event now = elim d.retry [
    | true ↦ retry_job r d.retry_at event now
    | false ↦ elim d.terminal_status [
      | some JobStatus.expired ↦ expire_job r now
      | _ ↦ dead_letter_job r category error_code now
    ]
  ]

  -- What `fail` and `_recover_expired` do once the attempt has been closed.
  unfoldable pub end_attempt :
      JobInstance → FailureCategory → Text → EventType → Instant → Job JobInstance
  unfolding require_definition follow_decision
  end_attempt r category error_code event now = do
    d ← require_definition r.definition_id
    policy ← lift (retry_policy d.max_attempts d.retry_delays)
    decision ← lift (decide_retry policy category r.attempt_count now r.deadline)
    let ended = record (clear_lease r) { updated_at = now; state_version = r.state_version + 1 }
    follow_decision decision ended category error_code event now
