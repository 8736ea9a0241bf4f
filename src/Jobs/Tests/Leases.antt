-- ===== src/Jobs/Tests/Leases.antt =====
-- The lease checks and the choice of a candidate on stores of one job.
use wanderra_os.Base.{
  ℕ, zero, suc, get_elem?, ◌↔◌, ◌+◌, ◌<◌, ◌≡◌, refl, subst, false, none, some, [], ◌∷◌, arith, inl,
}
use wanderra_os.Base.Text.{Text, codes, strip}
use wanderra_os.Base.Json.{string}
use wanderra_os.Base.Table.{update, find, select, count_where, order_by, insert_by}
use wanderra_os.Base.Result.{ok, err}
use wanderra_os.Jobs.Contracts.{
  seconds, FailureCategory, JobStatus, AttemptStatus, Classification, RetryDecision, no_live_lease,
  decide_retry,
}
use wanderra_os.Jobs.Models.{JobDefinition, DefinitionStatus, JobInstance, JobAttempt, Store}
use wanderra_os.Jobs.Repository
use wanderra_os.Jobs.Service.Lifecycle.{
  JobLease, job_lease, claimed, claim_next, recover_expired, expire_waiting, recover_leases,
  expire_rows, claim_found, claim_row, heartbeat, succeed, fail,
}
use wanderra_os.Jobs.Session.{save_job, add_attempt, record_event, add_outbox, outbox_taken}
use wanderra_os.Base.Action.{◌>>=◌}
use wanderra_os.Jobs.Calls.{empty}
use wanderra_os.Jobs.Lease.{HoldsLease}
use wanderra_os.Jobs.Fencing.{stale_worker_refused, IsReady, succeed_effect, Succeeded}
use wanderra_os.Jobs.Ownership.{claim_next-HoldsLease}
use wanderra_os.Jobs.Claimable.{Serves, HasRoom, IsClaimable}
use wanderra_os.Jobs.Retry.{Sound, decide_retry-Sound}
use wanderra_os.Jobs.Claims.{Chosen, claim_candidate-first}
use wanderra_os.Jobs.Liveness.{claim_candidate-returns}
use wanderra_os.Jobs.Tests.{first_context, worker, result_digest, policy}

abbrev pub report : JobDefinition
report = record {
  tenant = first_context.tenant;
  id = 1;
  definition_key = codes "report";
  definition_version = 1;
  handler_key = codes "report.build";
  max_attempts = 3;
  retry_delays = policy.delays;
  max_concurrency = 2;
  rate_limit_per_minute = 10;
  status = DefinitionStatus.active;
  state_version = 1;
  created_by_user_id = 5;
  created_at = 1000;
  updated_at = 1000;
}

abbrev running_job : JobInstance
running_job = record {
  tenant = first_context.tenant;
  id = 7;
  definition_id = 1;
  resource_id = none;
  idempotency_key = codes "key";
  request_digest = codes "digest";
  command_type = codes "build";
  payload = string (codes "march");
  classification = Classification.internal;
  status = JobStatus.running;
  available_at = 10;
  deadline = 900000000;
  attempt_count = 1;
  lease_owner = some worker;
  lease_expires_at = some 30002000;
  heartbeat_at = some 2000;
  cancellation_requested_at = none;
  cancellation_reason = none;
  replay_of_job_id = none;
  causation_id = none;
  correlation_id = codes "correlation";
  state_version = 2;
  created_by_user_id = 5;
  created_at = 1000;
  updated_at = 2000;
  completed_at = none;
  result_digest = none;
}

abbrev waiting_job : JobInstance
waiting_job = record running_job {
  status = JobStatus.queued;
  attempt_count = 0;
  lease_owner = none;
  lease_expires_at = none;
  heartbeat_at = none;
  state_version = 1;
}

abbrev running_attempt : JobAttempt
running_attempt = record {
  tenant = first_context.tenant;
  id = 102;
  job_id = 7;
  attempt_number = 1;
  worker_id = worker;
  status = AttemptStatus.running;
  failure_category = none;
  error_code = none;
  started_at = 2000;
  heartbeat_at = 2000;
  lease_expires_at = 30002000;
  finished_at = none;
}

abbrev running_store : Store
running_store = record empty {
  definitions = report ∷ [];
  jobs = running_job ∷ [];
  attempts = running_attempt ∷ [];
}

abbrev waiting_store : Store
waiting_store = record empty { definitions = report ∷ []; jobs = waiting_job ∷ [] }

running_job-found : Repository.job first_context 7 running_store ≡ some running_job
unfolding Repository.job find
running_job-found = refl

lease-lapsed : ¬ HoldsLease running_job worker 30002000
lease-lapsed held =
    let expires = held.expires in
    let live = held.live in let same : held.expiry ≡ 30002000 = cc in ground (arith, live, same)

running_attempt-current :
    Repository.current_attempt first_context running_job running_store ≡ some running_attempt
unfolding Repository.current_attempt find
running_attempt-current = refl

-- At the very microsecond of its expiry a lease is lost.
stale_worker_refused_example :
    (heartbeat first_context 7 worker 30002000 running_store ≡ (err no_live_lease, running_store))
    × (succeed first_context 7 worker result_digest 30002000 running_store
        ≡ (err no_live_lease, running_store))
    × (fail first_context 7 worker FailureCategory.transient
          (codes "timeout")
          30002000
          running_store
        ≡ (err no_live_lease, running_store))
stale_worker_refused_example =
    stale_worker_refused first_context 7 worker 30002000 running_store running_job result_digest
      (codes "timeout") FailureCategory.transient refl running_job-found lease-lapsed refl

worker-IsReady : IsReady first_context 7 worker 4000 running_store running_job running_attempt
worker-IsReady = record {
  allowed = refl;
  found = running_job-found;
  held = record {
    running = refl;
    owner = refl;
    expiry = 30002000;
    expires = refl;
    live = omega arith;
  };
  uncancelled = refl;
  current = running_attempt-current;
  attempt_runs = refl;
  event_free = tt;
}

succeed_effect_example :
    (v : JobInstance) × (t : Store) × (succeed first_context 7 worker result_digest 4000
        running_store
      ≡ (ok v, t))
    × Succeeded first_context 7 4000 running_store running_job running_attempt result_digest v t
succeed_effect_example =
    succeed_effect first_context 7 worker 4000 running_store running_job running_attempt
      worker-IsReady result_digest refl

waiting_job-chosen :
    Repository.claim_candidate first_context 2000 waiting_store ≡ some (waiting_job, report)
unfolding Repository.claim_candidate Repository.workspace_paused find Repository.running_count
    count_where Repository.claim_head order_by select Repository.is_claimable Repository.joins
    insert_by Repository.joined
waiting_job-chosen = refl

claim_candidate-first_example : Chosen first_context 2000 waiting_store waiting_job report
claim_candidate-first_example =
    claim_candidate-first first_context 2000 waiting_store {r = waiting_job} {d = report}
      waiting_job-chosen

waiting_store-active : Repository.workspace_paused first_context waiting_store ≡ false
unfolding Repository.workspace_paused find
waiting_store-active = refl

waiting_store-few : Repository.running_count first_context waiting_store < 20
unfolding Repository.running_count count_where
waiting_store-few = omega arith

report-Serves : Serves first_context waiting_store waiting_job report
unfolding Repository.definition_paused find
report-Serves = record {
  organization = refl;
  workspace = refl;
  cell = refl;
  named = refl;
  active = refl;
  unpaused = refl;
}

waiting_job-IsClaimable : IsClaimable first_context 2000 waiting_store waiting_job
waiting_job-IsClaimable = record {
  own = refl;
  waiting = inl refl;
  available = omega arith;
  alive = omega arith;
  unlocked = refl;
  definition = report;
  position = 0;
  stored = refl;
  serves = report-Serves;
}

report-room : HasRoom first_context 2000 waiting_store report
unfolding Repository.definition_running_count Repository.recent_attempt_count count_where
report-room = record { running = omega arith; recent = omega arith }

waiting_store-room :
    (j : ℕ) (x : JobInstance) (d : JobDefinition)
    → get_elem? waiting_store.definitions j ≡ some d
    → Serves first_context waiting_store x d
    → HasRoom first_context 2000 waiting_store d
waiting_store-room zero x d at h =
    let same : report ≡ d = cc in subst (HasRoom first_context 2000 waiting_store) same report-room
waiting_store-room (suc j) x d at h = absurd (cc)

claim_candidate-returns_example :
    (x : JobInstance) × (d : JobDefinition) × (Repository.claim_candidate first_context 2000
        waiting_store
      ≡ some (x, d))
claim_candidate-returns_example =
    claim_candidate-returns first_context 2000 waiting_store 0 waiting_job waiting_store-active
      waiting_store-few refl waiting_job-IsClaimable waiting_store-room

decide_retry-Sound_example :
    (d : RetryDecision) × (decide_retry policy FailureCategory.transient 1 2000 900000000 ≡ ok d)
    × Sound policy FailureCategory.transient 1 2000 900000000 d
decide_retry-Sound_example =
    decide_retry-Sound policy FailureCategory.transient 1 2000 900000000
      (
        omega arith,
        omega arith,
        omega arith,
        ((omega arith, omega arith), ((omega arith, omega arith), tt)),
      )
      (omega arith)

abbrev blank_worker : Text
blank_worker = codes " worker "

abbrev lease : JobLease
lease = job_lease (claimed waiting_job (strip blank_worker) 2000) report

abbrev leased_store : Store
leased_store = (claim_next first_context blank_worker 2000 30 waiting_store).1

blank_worker-claims :
    claim_next first_context blank_worker 2000 30 waiting_store ≡ (ok (some lease), leased_store)
unfolding claim_next ◌>>=◌ strip recover_expired recover_leases Repository.expired_leases order_by
    select expire_waiting expire_rows Repository.expired_waiting Repository.claim_candidate
    Repository.workspace_paused find Repository.running_count count_where Repository.claim_head
    Repository.is_claimable insert_by Repository.joined Repository.joins Repository.within_limits
    claim_found claim_row claimed job_lease save_job add_attempt record_event add_outbox update
    outbox_taken
blank_worker-claims = refl

-- The worker that claimed with blanks around its identity, and asks again under that identity.
claim_next-HoldsLease_example :
    (r : JobInstance) × (Repository.job first_context lease.job_id leased_store ≡ some r)
    × (HoldsLease r blank_worker 4000
        ↔ ((blank_worker ≡ strip blank_worker) × (4000 < 2000 + seconds 30)))
claim_next-HoldsLease_example =
    claim_next-HoldsLease first_context blank_worker blank_worker 2000 4000 30 waiting_store
      {lease = lease} {t = leased_store} blank_worker-claims
