-- ===== src/Jobs/Invariant/Guards.antt =====
-- What the checks of app/jobs/service.py establish of the rows that they return, and the end of an
-- attempt.
use wanderra_os.Base.{
  ℕ, ◌+◌, ◌≤◌, ◌<◌, ◌≡◌, sym, ap, subst, ◌∙◌, true, some, List, arith, Bool-cases, inl, inr,
}
use wanderra_os.Base.Text.{Text}
use wanderra_os.Base.Table.{find-test, All-find}
use wanderra_os.Base.Post.{Post, Any, bind, weaken, return, guarding, reading, lifting, requiring}
use wanderra_os.Jobs.Contracts.{
  Instant, FailureCategory, JobStatus, RetryPolicy, RetryDecision, retry_policy, decide_retry,
}
use wanderra_os.Jobs.Retry.{IsPolicy, Sound, retry_policy-IsPolicy, decide_retry-Sound}
use wanderra_os.Jobs.Models.{
  JobDefinition, JobInstance, JobAttempt, EventType, Permission, Store, Context,
}
use wanderra_os.Jobs.Repository
use wanderra_os.Jobs.Repository.{is_mine, is_job, is_attempt, is_running, is_waiting}
use wanderra_os.Jobs.Service.Guards.{
  clear_lease, checked_reason, require_authorized, require_job, require_definition, require_attempt,
  holds_lease, leased_job, dead_letter_job, end_attempt, retry_job, expire_job, follow_decision,
}
use wanderra_os.Jobs.Invariant.Rows.{definition_of, attempts_of, budget, JobIsValid, Holds}
use wanderra_os.Jobs.Invariant.Writes.{save_job-Holds, new_id-Holds, record_event-Holds, mine_own}
use wanderra_os.Jobs.Invariant.Inserts.{add_dead_letter-Holds}

pub checked_reason-Post : {I : Store → Type 0} (text : Text) → Post I Any (checked_reason text)
unfolding checked_reason
checked_reason-Post text = bind (guarding _ _) λ _ _. return _ tt

module _ (context : Context) (s : Store) where
  -- A row of the workspace that is valid under the definitions of `s`.
  abbrev pub IsOwn : JobInstance → Type 0
  IsOwn r = (is_mine context r.tenant ≡ true) × JobIsValid s.definitions r

  pub authorized-Post :
      {I : Store → Type 0} (permission : Permission)
      → Post I Any (require_authorized context permission)
  unfolding require_authorized
  authorized-Post permission = weaken (λ _ _. tt) (guarding _ _)

  pub find_job-IsOwn :
      (id : ℕ) (t : Store) {r : JobInstance}
      → Holds context s t
      → Repository.job context id t ≡ some r
      → IsOwn r × (r.id ≡ id)
  unfolding Repository.job
  find_job-IsOwn id t {r} h e =
      let test = find-test (is_job context id) t.jobs e in
      let valid = All-find (JobIsValid s.definitions) (is_job context id) t.jobs h.valid e in
      ((ground arith, valid), ground arith)

  pub require_job-Holds :
      (id : ℕ) → Post (Holds context s) (λ r. IsOwn r × (r.id ≡ id)) (require_job context id)
  unfolding require_job
  require_job-Holds id =
      bind
        (reading {Q = λ o. (r : JobInstance) → o ≡ some r → IsOwn r × (r.id ≡ id)} _
          (λ t h r e. find_job-IsOwn id t h e))
        λ found own. weaken own (requiring found _)

  pub leased_job-Holds :
      (id : ℕ) (worker : Text) (now : Instant)
      → Post
          (Holds context s)
          (λ r. IsOwn r × (is_running r.status ≡ true))
          (leased_job context id worker now)
  unfolding leased_job holds_lease
  leased_job-Holds id worker now = bind (authorized-Post _) λ _ _.
      bind (require_job-Holds id)
        λ r own. bind (guarding _ _) λ _ live. return r (own.0, ground arith)

  pub require_attempt-Holds :
      (r : JobInstance)
      → Post (Holds context s) (λ a. is_mine context a.tenant ≡ true) (require_attempt context r)
  unfolding require_attempt Repository.current_attempt
  require_attempt-Holds r =
      bind
        (reading {Q = λ o. (a : JobAttempt) → o ≡ some a → is_mine context a.tenant ≡ true} _
          (λ t h a e.
            let test = find-test (is_attempt context r.id r.attempt_count) t.attempts e in
            ground arith))
        λ found mine. bind (requiring found _) λ a e. bind (guarding _ _) λ _ _. return a (mine a e)

  pub require_definition-Holds :
      (id : ℕ)
      → Post
          (Holds context s)
          (λ d. definition_of s.definitions context.tenant.workspace_id id ≡ some d)
          (require_definition context id)
  unfolding require_definition Repository.definition
  require_definition-Holds id =
      bind
        (reading {Q = λ o. o ≡ definition_of s.definitions context.tenant.workspace_id id} _
          (λ t h. ap (λ ds. definition_of ds context.tenant.workspace_id id) h.same_definitions))
        λ found e. weaken (λ d q. sym e ∙ q) (requiring found _)

  -- A job of the workspace has the budget of the definition that its call finds.
  pub budget-of :
      (r : JobInstance) (d : JobDefinition)
      → is_mine context r.tenant ≡ true
      → definition_of s.definitions context.tenant.workspace_id r.definition_id ≡ some d
      → budget s.definitions r ≡ d.max_attempts
  budget-of r d mine e =
      let same : r.tenant.workspace_id ≡ context.tenant.workspace_id = ground arith in
      ap (λ w. attempts_of (definition_of s.definitions w r.definition_id)) same ∙ ap attempts_of e

-- The three ways in which a running job leaves its attempt keep it valid.
module _ {definitions : List JobDefinition} {r : JobInstance} (v : JobIsValid definitions r)
    (running : is_running r.status ≡ true) where
  waiting-IsValid :
      (now t : Instant)
      → r.attempt_count < budget definitions r
      → t < r.deadline
      → JobIsValid definitions (record (clear_lease r) {
        updated_at = now;
        state_version = r.state_version + 1;
        status = JobStatus.retry_wait;
        available_at = t;
      })
  waiting-IsValid now t left soon = ground arith

  expired-IsValid :
      (now : Instant)
      → JobIsValid definitions (record (clear_lease r) {
        updated_at = now;
        state_version = r.state_version + 1;
        status = JobStatus.expired;
        completed_at = some now;
      })
  expired-IsValid now = ground arith

  dead-IsValid :
      (now : Instant)
      → JobIsValid definitions (record (clear_lease r) {
        updated_at = now;
        state_version = r.state_version + 1;
        status = JobStatus.dead_lettered;
        completed_at = some now;
      })
  dead-IsValid now = ground arith

module _ (context : Context) (s : Store) where
  dead_letter_job-Holds :
      (r : JobInstance) (category : FailureCategory) (code : Text) (now : Instant)
      → is_mine context r.tenant ≡ true
      → JobIsValid s.definitions
          (record r { status = JobStatus.dead_lettered; completed_at = some now })
      → Post (Holds context s) Any (dead_letter_job context r category code now)
  unfolding dead_letter_job
  dead_letter_job-Holds r category code now mine v = bind (save_job-Holds context s _ mine v) λ _ _.
      bind (new_id-Holds context s) λ id _.
        bind (add_dead_letter-Holds context s _ (mine_own context))
          λ _ _. bind (record_event-Holds context s _ _ _ _ _) λ _ _. return _ tt

  expire_job-Holds :
      (r : JobInstance) (now : Instant)
      → is_mine context r.tenant ≡ true
      → JobIsValid s.definitions (record r { status = JobStatus.expired; completed_at = some now })
      → Post (Holds context s) Any (expire_job context r now)
  unfolding expire_job
  expire_job-Holds r now mine v =
      bind (save_job-Holds context s _ mine v)
        λ _ _. bind (record_event-Holds context s _ _ _ _ _) λ _ _. return _ tt

  retry_job-Holds :
      (r : JobInstance) (t : Instant) (event : EventType) (now : Instant)
      → is_mine context r.tenant ≡ true
      → JobIsValid s.definitions (record r { status = JobStatus.retry_wait; available_at = t })
      → Post (Holds context s) Any (retry_job context r (some t) event now)
  unfolding retry_job
  retry_job-Holds r t event now mine v =
      bind (save_job-Holds context s _ mine v)
        λ _ _. bind (record_event-Holds context s _ _ _ _ _) λ _ _. return _ tt

  module _ (r : JobInstance) (category : FailureCategory) (code : Text) (event : EventType)
      (now : Instant) (own : IsOwn context s r) (running : is_running r.status ≡ true) where
    abbrev ended : JobInstance
    ended = record (clear_lease r) { updated_at = now; state_version = r.state_version + 1 }

    follow_decision-Holds :
        (policy : RetryPolicy) (d : RetryDecision)
        → policy.max_attempts ≤ budget s.definitions r
        → Sound policy category r.attempt_count now r.deadline d
        → Post (Holds context s) Any (follow_decision context d ended category code event now)
    unfolding follow_decision
    follow_decision-Holds policy d within sound = elim (Bool-cases d.retry) [
      | inl again ↦
          let (t, at, _, _, _, soon, left, _) = sound.0 again in
          rw (again, at)
            (retry_job-Holds ended t event now own.0
              (waiting-IsValid own.1 running now t (omega arith) soon))
      | inr over ↦ rw over (elim ((sound.1 over).1) [
        | inl dead ↦
            rw dead
              (dead_letter_job-Holds ended category code now own.0 (dead-IsValid own.1 running now))
        | inr late ↦ rw late (expire_job-Holds ended now own.0 (expired-IsValid own.1 running now))
      ])
    ]

    pub end_attempt-Holds :
        Post (Holds context s) Any (end_attempt context r category code event now)
    unfolding end_attempt
    end_attempt-Holds = bind (require_definition-Holds context s r.definition_id) λ d found.
        bind (lifting (retry_policy d.max_attempts d.retry_delays)) λ policy accepted.
          let (same, sound) = retry_policy-IsPolicy d.max_attempts d.retry_delays accepted in
          let policy-IsPolicy : IsPolicy policy.max_attempts policy.delays = rw same sound in
          let (decision, e, s-Sound) =
            decide_retry-Sound policy category r.attempt_count now r.deadline policy-IsPolicy
              (own.1.attempted running) in
          bind (lifting (decide_retry policy category r.attempt_count now r.deadline)) λ d' e'.
            let agree : decision ≡ d' = cc (e, e') in
            follow_decision-Holds policy d' (ground (arith, budget-of context s r d own.0 found))
              (subst (Sound policy category r.attempt_count now r.deadline) agree s-Sound)
