-- ===== src/Jobs/Service/Lifecycle.antt =====
-- app/jobs/service.py: what a worker calls, `claim_next`, `heartbeat`, `succeed` and `fail`.
use wanderra_os.Base.{
  ℕ, ◌+◌, not, ◌||◌, Option, none, some, List, [], ◌∷◌, length, ltb, ◌==◌, is_some,
}
use wanderra_os.Base.Text.{Text, codes, strip}
use wanderra_os.Base.Json.{Json}
use wanderra_os.Base.Action.{◌>>=◌, ◌>>◌, pure, raise, raise_if, gets}
use wanderra_os.Jobs.Contracts.{
  Instant, seconds, FailureCategory, JobStatus, AttemptStatus, worker_invalid,
  lease_duration_invalid, cancellation_observed, digest_invalid, cancelled_cannot_succeed,
  error_code_invalid,
}
use wanderra_os.Jobs.Models.{JobDefinition, JobInstance, JobAttempt, EventType, Permission, Context}
use wanderra_os.Jobs.Repository
use wanderra_os.Jobs.Repository.{Job}
use wanderra_os.Jobs.Session.{save_job, save_attempt, add_attempt, new_id}
use wanderra_os.Jobs.Service.Guards.{
  clear_lease, require_authorized, require_attempt, leased_job, record_job, end_attempt,
}

-- `JobLease.__init__`
pub record JobLease : Type 0 where
  pub job_id : ℕ
  pub definition_id : ℕ
  pub handler_key : Text
  pub command_type : Text
  pub payload : Json
  pub idempotency_key : Text
  pub attempt_number : ℕ
  pub deadline : Instant
  pub correlation_id : Text

unfoldable pub job_lease : JobInstance → JobDefinition → JobLease
job_lease r d = record {
  job_id = r.id;
  definition_id = d.id;
  handler_key = d.handler_key;
  command_type = r.command_type;
  payload = r.payload;
  idempotency_key = r.idempotency_key;
  attempt_number = r.attempt_count;
  deadline = r.deadline;
  correlation_id = r.correlation_id;
}

abbrev pub lease_seconds : ℕ
lease_seconds = 30

-- The job as its claim leaves it.
unfoldable pub claimed : JobInstance → Text → Instant → JobInstance
claimed r worker_id now = record r {
  attempt_count = r.attempt_count + 1;
  status = JobStatus.running;
  lease_owner = some worker_id;
  heartbeat_at = some now;
  lease_expires_at = some (now + seconds lease_seconds);
  updated_at = now;
  state_version = r.state_version + 1;
}

module _ (context : Context) where
  -- The body of the loop of `_recover_expired`.
  unfoldable pub recover_lease : JobInstance → Instant → Job JobInstance
  unfolding require_attempt
  recover_lease r now = do
    attempt ← require_attempt context r
    save_attempt context (record attempt {
      status = AttemptStatus.abandoned;
      failure_category = some FailureCategory.transient;
      error_code = some (codes "lease_expired");
      finished_at = some now;
    })
    end_attempt context r FailureCategory.transient (codes "lease_expired")
        EventType.job_lease_recovered now

  unfoldable pub recover_leases : List JobInstance → Instant → Job (Unit {0})
  recover_leases [] now = pure tt
  recover_leases (r ∷ rs) now = do _ ← recover_lease r now; recover_leases rs now

  -- `_recover_expired`
  unfoldable pub recover_expired : Instant → Job (Unit {0})
  recover_expired now = do
    rows ← gets (Repository.expired_leases context now)
    recover_leases rows now

  -- The body of the loop of `_expire_waiting`.
  unfoldable pub expire_row : JobInstance → Instant → Job (Unit {0})
  expire_row r now = do
    let expired = record r {
      status = JobStatus.expired;
      completed_at = some now;
      updated_at = now;
      state_version = r.state_version + 1;
    }
    save_job context expired
    record_job context expired EventType.job_expired now

  unfoldable pub expire_rows : List JobInstance → Instant → Job (Unit {0})
  expire_rows [] now = pure tt
  expire_rows (r ∷ rs) now = do expire_row r now; expire_rows rs now

  -- `_expire_waiting`
  unfoldable pub expire_waiting : Instant → Job (Unit {0})
  expire_waiting now = do rows ← gets (Repository.expired_waiting context now); expire_rows rows now

  -- The part of `claim_next` behind the choice of a candidate.
  unfoldable pub claim_row : JobInstance → JobDefinition → Text → Instant → Job JobLease
  unfolding claimed job_lease
  claim_row r d worker_id now = do
    let running = claimed r worker_id now
    save_job context running
    id ← new_id context
    add_attempt context (record {
      tenant = context.tenant;
      id = id;
      job_id = running.id;
      attempt_number = running.attempt_count;
      worker_id = worker_id;
      status = AttemptStatus.running;
      failure_category = none;
      error_code = none;
      started_at = now;
      heartbeat_at = now;
      lease_expires_at = now + seconds lease_seconds;
      finished_at = none;
    })
    record_job context running EventType.job_claimed now
    pure (job_lease running d)

  unfoldable pub claim_found :
      Option (JobInstance × JobDefinition) → Text → Instant → Job (Option JobLease)
  claim_found none worker_id now = pure none
  claim_found (some (r, d)) worker_id now = do
    lease ← claim_row r d worker_id now
    pure (some lease)

  unfoldable pub claim_next : Text → Instant → ℕ → Job (Option JobLease)
  unfolding claim_found require_authorized
  claim_next worker_id now duration = do
    require_authorized context Permission.update_content
    let worker = strip worker_id
    raise_if ((length worker == 0) || ltb 128 (length worker)) worker_invalid
    raise_if (not (duration == lease_seconds)) lease_duration_invalid
    recover_expired now
    expire_waiting now
    candidate ← gets (Repository.claim_candidate context now)
    claim_found candidate worker now

  -- The branch of `heartbeat` that observes a cancellation.
  unfoldable pub observe_cancellation : JobInstance → JobAttempt → Instant → Job (Unit {0})
  observe_cancellation r attempt now = do
    save_attempt context
        (record attempt { status = AttemptStatus.cancelled; finished_at = some now })
    let cancelled = record (clear_lease r) {
      status = JobStatus.cancelled;
      completed_at = some now;
      state_version = r.state_version + 1;
    }
    save_job context cancelled
    record_job context cancelled EventType.job_cancelled now
    raise cancellation_observed

  unfoldable pub extend_lease : JobInstance → JobAttempt → Instant → Job (Unit {0})
  extend_lease r attempt now = do
    let extended = record r {
      heartbeat_at = some now;
      lease_expires_at = some (now + seconds 30);
      updated_at = now;
      state_version = r.state_version + 1;
    }
    save_job context extended
    save_attempt context
        (record attempt { heartbeat_at = now; lease_expires_at = now + seconds 30 })
    record_job context extended EventType.job_heartbeat now

  unfoldable pub beat : JobInstance → JobAttempt → Instant → Option Instant → Job (Unit {0})
  unfolding observe_cancellation extend_lease
  beat r attempt now none = extend_lease r attempt now
  beat r attempt now (some _) = observe_cancellation r attempt now

  unfoldable pub heartbeat : ℕ → Text → Instant → Job (Unit {0})
  unfolding beat
  heartbeat job_id worker_id now = do
    r ← leased_job context job_id worker_id now
    attempt ← require_attempt context r
    beat r attempt now r.cancellation_requested_at

  unfoldable pub succeed : ℕ → Text → Text → Instant → Job JobInstance
  succeed job_id worker_id result_digest now = do
    raise_if (not (length result_digest == 64)) digest_invalid
    r ← leased_job context job_id worker_id now
    raise_if (is_some r.cancellation_requested_at) cancelled_cannot_succeed
    attempt ← require_attempt context r
    save_attempt context
        (record attempt { status = AttemptStatus.succeeded; finished_at = some now })
    let done = record (clear_lease r) {
      status = JobStatus.succeeded;
      result_digest = some result_digest;
      completed_at = some now;
      updated_at = now;
      state_version = r.state_version + 1;
    }
    save_job context done
    record_job context done EventType.job_succeeded now
    pure done

  unfoldable pub fail : ℕ → Text → FailureCategory → Text → Instant → Job JobInstance
  fail job_id worker_id category error_code now = do
    r ← leased_job context job_id worker_id now
    attempt ← require_attempt context r
    let code = strip error_code
    raise_if ((length code == 0) || ltb 96 (length code)) error_code_invalid
    save_attempt context (record attempt {
      status = AttemptStatus.failed;
      failure_category = some category;
      error_code = some code;
      finished_at = some now;
    })
    end_attempt context r category code EventType.job_retry_scheduled now
