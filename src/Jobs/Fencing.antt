-- ===== src/Jobs/Fencing.antt =====
-- A worker acts on a job only while it holds the job's live lease: `_leased_job` in
-- app/jobs/service.py, and the methods that begin with it.
use wanderra_os.Base.{
  ℕ, ◌+◌, ◌≡◌, ◌≢◌, refl, sym, subst, ◌∙◌, [], ◌∷◌, ◌++◌, true, false, not, none, some, arith, ◌==◌,
  length, is_some,
}
use wanderra_os.Base.Text.{Text}
use wanderra_os.Base.Table.{find, update, find-test, find-update_self, find-update_skip}
use wanderra_os.Base.Result.{ok, err}
use wanderra_os.Base.Action.{◌>>=◌, raise_if, modify, pure, bind-err, bind-ok}
use wanderra_os.Jobs.Contracts.{
  Instant, FailureCategory, JobStatus, AttemptStatus, no_live_lease, digest_invalid,
  cancelled_cannot_succeed,
}
use wanderra_os.Jobs.Models.{
  JobInstance, JobAttempt, EventType, AggregateType, Permission, Store, Context,
}
use wanderra_os.Jobs.Session.{outbox_row, save_job, save_attempt, record_event}
use wanderra_os.Jobs.Events.{AreFree, told, record_event-returns}
use wanderra_os.Jobs.Lease.{HoldsLease, HoldsLease-none, HoldsLease→holds_lease}
use wanderra_os.Jobs.Repository
use wanderra_os.Jobs.Repository.{is_job, is_attempt}
use wanderra_os.Jobs.Service.Guards.{
  is_running_attempt, require_attempt, require_authorized, require_job, holds_lease, leased_job,
}
use wanderra_os.Jobs.Service.Lifecycle.{heartbeat, succeed, fail}

module _ (context : Context) (id : ℕ) (worker : Text) (now : Instant) (s : Store) where
  leased_job-refused :
      (r : JobInstance)
      → context.authorize Permission.update_content ≡ true
      → Repository.job context id s ≡ some r
      → holds_lease r worker now ≡ false
      → leased_job context id worker now s ≡ (err no_live_lease, s)
  unfolding leased_job ◌>>=◌
  leased_job-refused r allowed found stale = ground arith

  -- If an authorized worker names a job whose lease it does not hold at the instant, which it does
  -- if and only if the job runs, the worker is the lease's owner and the lease expires later, then
  -- `heartbeat`, `succeed` with a digest of 64 characters, and `fail` all raise `LeaseConflict`,
  -- and nothing in the store changes.
  pub stale_worker_refused :
      (r : JobInstance) (result code : Text) (category : FailureCategory)
      → context.authorize Permission.update_content ≡ true
      → Repository.job context id s ≡ some r
      → (¬ HoldsLease r worker now)
      → length result ≡ 64
      → (heartbeat context id worker now s ≡ (err no_live_lease, s))
        × (succeed context id worker result now s ≡ (err no_live_lease, s))
        × (fail context id worker category code now s ≡ (err no_live_lease, s))
  unfolding heartbeat succeed fail raise_if
  stale_worker_refused r result code category allowed found lacks long =
      let refused = leased_job-refused r allowed found (HoldsLease-none r worker now lacks) in
      (
        bind-err _ _ refused,
        bind-ok (raise_if (not (length result == 64)) digest_invalid) _ (rw long)
            ∙ bind-err _ _ refused,
        bind-err _ _ refused,
      )

-- A job that an authorized worker can bring to its end: it holds the lease, no cancellation was
-- requested, the current attempt runs, and the event of the next version is not in the outbox.
pub record IsReady (context : Context) (id : ℕ) (worker : Text) (now : Instant) (s : Store)
    (r : JobInstance) (attempt : JobAttempt) : Type 0 where
  pub allowed : context.authorize Permission.update_content ≡ true
  pub found : Repository.job context id s ≡ some r
  pub held : HoldsLease r worker now
  pub uncancelled : r.cancellation_requested_at ≡ none
  pub current : Repository.current_attempt context r s ≡ some attempt
  pub attempt_runs : attempt.status ≡ AttemptStatus.running
  pub event_free : AreFree (context.id_factory s.ids_drawn) r.id (r.state_version + 1) s.outbox

-- What a success leaves of the job `r`, with the answer `v`: the row, the attempt, the other jobs,
-- and the event.
pub record Succeeded (context : Context) (id : ℕ) (now : Instant) (s : Store) (r : JobInstance)
    (attempt : JobAttempt) (result : Text) (v : JobInstance) (t : Store) : Type 0 where
  pub stored : Repository.job context id t ≡ some v
  pub status : v.status ≡ JobStatus.succeeded
  pub answered : v.result_digest ≡ some result
  pub no_owner : v.lease_owner ≡ none
  pub no_expiry : v.lease_expires_at ≡ none
  pub no_heartbeat : v.heartbeat_at ≡ none
  pub completed : v.completed_at ≡ some now
  pub version : v.state_version ≡ r.state_version + 1
  pub attempts : v.attempt_count ≡ r.attempt_count
  pub attempt_closed :
      Repository.current_attempt context r t
      ≡ some (record attempt { status = AttemptStatus.succeeded; finished_at = some now })
  pub others :
      (other : ℕ) → other ≢ id → Repository.job context other t ≡ Repository.job context other s
  pub event :
      t.outbox
      ≡ s.outbox
        ++ (outbox_row context
              (context.id_factory s.ids_drawn)
              r.id
              (r.state_version + 1)
              EventType.job_succeeded
              AggregateType.job
              now
            ∷ [])

module _ (context : Context) (id : ℕ) (worker : Text) (now : Instant) (s : Store) (r : JobInstance)
    (attempt : JobAttempt) (ready : IsReady context id worker now s r attempt) where
  leased_job-accepted : leased_job context id worker now s ≡ (ok r, s)
  unfolding leased_job require_authorized require_job ◌>>=◌
  leased_job-accepted =
      let allowed = ready.allowed in
      let found = ready.found in
      let held = HoldsLease→holds_lease r worker now ready.held in ground arith

  require_attempt-accepted : require_attempt context r s ≡ (ok attempt, s)
  unfolding require_attempt ◌>>=◌
  require_attempt-accepted =
      let current = ready.current in
      let runs : is_running_attempt attempt.status ≡ true = rw ready.attempt_runs refl in
      ground arith

  -- The query that found the job is the one that its own identifier makes.
  same_id : r.id ≡ id
  unfolding Repository.job
  same_id = (let test = find-test (is_job context id) s.jobs ready.found in ground (arith, test))

  -- The row that `succeed` writes.
  abbrev done : Text → JobInstance
  done result = record r {
    lease_owner = none;
    lease_expires_at = none;
    heartbeat_at = none;
    status = JobStatus.succeeded;
    result_digest = some result;
    completed_at = some now;
    updated_at = now;
    state_version = r.state_version + 1;
  }

  abbrev closed : JobAttempt
  closed = record attempt { status = AttemptStatus.succeeded; finished_at = some now }

  -- The store with the two rows written.
  abbrev written : Text → Store
  written result = record s {
    attempts =
        update (is_attempt context attempt.job_id attempt.attempt_number) (λ _. closed) s.attempts;
    jobs = update (is_job context r.id) (λ _. done result) s.jobs;
  }

  row-saved :
      (result : Text)
      → find (is_job context id) (update (is_job context r.id) (λ _. done result) s.jobs)
        ≡ some (done result)
  unfolding Repository.job
  row-saved result =
      let test = find-test (is_job context id) s.jobs ready.found in
      subst
        (λ i.
          find (is_job context id) (update (is_job context i) (λ _. done result) s.jobs)
          ≡ some (done result))
        (sym same_id) (find-update_self (is_job context id) (done result) s.jobs ready.found test)

  attempt-saved :
      find
        (is_attempt context r.id r.attempt_count)
        (update (is_attempt context attempt.job_id attempt.attempt_number) (λ _. closed) s.attempts)
      ≡ some closed
  unfolding Repository.current_attempt
  attempt-saved =
      let query = is_attempt context r.id r.attempt_count in
      let test = find-test query s.attempts ready.current in
      let same_job : attempt.job_id ≡ r.id = ground (arith, test) in
      let same_number : attempt.attempt_number ≡ r.attempt_count = ground (arith, test) in
      subst
        (λ i.
          find query (update (is_attempt context i attempt.attempt_number) (λ _. closed) s.attempts)
          ≡ some closed)
        (sym same_job)
        (subst
          (λ n.
            find query (update (is_attempt context r.id n) (λ _. closed) s.attempts) ≡ some closed)
          (sym same_number) (find-update_self query closed s.attempts ready.current test))

  -- The store with the attempt closed.
  abbrev half : Store
  half = record s {
    attempts =
        update (is_attempt context attempt.job_id attempt.attempt_number) (λ _. closed) s.attempts;
  }

  attempt-written : save_attempt context closed s ≡ (ok tt, half)
  unfolding save_attempt modify
  attempt-written = refl

  row-written : (result : Text) → save_job context (done result) half ≡ (ok tt, written result)
  unfolding save_job modify
  row-written result = refl

  others-kept :
      (result : Text) (other : ℕ)
      → other ≢ id
      → find (is_job context other) (update (is_job context r.id) (λ _. done result) s.jobs)
        ≡ find (is_job context other) s.jobs
  others-kept result other differs =
      let same = same_id in
      find-update_skip (is_job context other) (is_job context r.id) (done result) s.jobs
        (λ x hit. ground (arith, hit, differs, same)) (ground (arith, differs, same))

  -- If no cancellation was requested, then an authorized worker that holds the live lease of a job
  -- whose current attempt runs succeeds with a digest of 64 characters, where the outbox has no row
  -- yet for the event: the stored job, which is the answer, has succeeded at the instant with that
  -- digest, has no lease and the next version, the attempt is closed, every other job is as it was,
  -- and one outbox row is added, which carries the version.
  pub succeed_effect :
      (result : Text)
      → length result ≡ 64
      → (v : JobInstance) × (t : Store) × (succeed context id worker result now s ≡ (ok v, t))
        × Succeeded context id now s r attempt result v t
  unfolding succeed Repository.job Repository.current_attempt pure
  succeed_effect result long =
      let first : raise_if (not (length result == 64)) digest_invalid s ≡ (ok tt, s) =
        unfold raise_if in rw long refl in
      let second : raise_if (is_some r.cancellation_requested_at) cancelled_cannot_succeed s
          ≡ (ok tt, s) =
        unfold raise_if in rw ready.uncancelled refl in
      let tell =
        record_event context r.id (r.state_version + 1) EventType.job_succeeded AggregateType.job
          now in
      (
        done result,
        told context r.id (r.state_version + 1) EventType.job_succeeded AggregateType.job now
            (written result),
        bind-ok (raise_if (not (length result == 64)) digest_invalid) _ first
            ∙ bind-ok (leased_job context id worker now) _ leased_job-accepted
            ∙ bind-ok (raise_if (is_some r.cancellation_requested_at) cancelled_cannot_succeed) _
                second
            ∙ bind-ok (require_attempt context r) _ require_attempt-accepted
            ∙ bind-ok (save_attempt context closed) _ attempt-written
            ∙ bind-ok (save_job context (done result)) _ (row-written result)
            ∙ bind-ok tell _ (
                record_event-returns context r.id (r.state_version + 1) EventType.job_succeeded
                  AggregateType.job now (written result) ready.event_free),
        record {
          stored = row-saved result;
          status = refl;
          answered = refl;
          no_owner = refl;
          no_expiry = refl;
          no_heartbeat = refl;
          completed = refl;
          version = refl;
          attempts = refl;
          attempt_closed = attempt-saved;
          others = others-kept result;
          event = refl;
        },
      )
