-- ===== src/Jobs/Invariant/Worker.antt =====
-- The enqueue and the methods that workers call keep what holds during a call.
use wanderra_os.Base.{
  ℕ, ◌≤◌, ◌<◌, ◌≡◌, refl, sym, ap, subst, true, ◌&&◌, ◌==◌, Option, none, some, All, arith,
}
use wanderra_os.Base.Text.{Text}
use wanderra_os.Base.Json.{Json}
use wanderra_os.Base.Table.{find-test, All-find}
use wanderra_os.Base.Post.{Post, Any, bind, return, guarding, reading, lifting, requiring}
use wanderra_os.Jobs.Contracts.{Instant, JobEnqueue}
use wanderra_os.Jobs.Models.{JobDefinition, JobInstance, Store, Context}
use wanderra_os.Jobs.Repository
use wanderra_os.Jobs.Repository.{is_mine, is_job, is_attempt, is_running, is_waiting}
use wanderra_os.Jobs.Service.Enqueue.{
  digest, new_job, enqueue_new, enqueue_existing, enqueue_keyed, enqueue, is_available, now_or,
}
use wanderra_os.Jobs.Invariant.Rows.{
  definition_of, attempts_of, JobIsValid, Holds, DefinitionIsValid,
}
use wanderra_os.Jobs.Invariant.Writes.{record_event-Holds, mine_own}
use wanderra_os.Jobs.Invariant.Inserts.{add_job-Holds}
use wanderra_os.Jobs.Invariant.Guards.{IsOwn, authorized-Post}

digest-Post :
    (context : Context) {I : Store → Type 0} (c : JobEnqueue) → Post I Any (digest context c)
unfolding digest
digest-Post context c = bind (requiring _ _) λ _ _. return _ tt

module _ (context : Context) (s : Store) (valid : All DefinitionIsValid s.definitions) where
  new_job-IsValid :
      (c : JobEnqueue) (text : Text) (payload : Json) (now : Instant)
      → c.available_at < c.deadline
      → 1 ≤ attempts_of (definition_of s.definitions context.tenant.workspace_id c.definition_id)
      → JobIsValid s.definitions (new_job context c text payload now)
  unfolding new_job
  new_job-IsValid c text payload now ordered some_attempt = ground arith

  -- A definition that was found leaves an attempt to a new job.
  attempt-of :
      (id : ℕ) (o : Option JobDefinition)
      → o ≡ definition_of s.definitions context.tenant.workspace_id id
      → is_available o ≡ true
      → 1 ≤ attempts_of (definition_of s.definitions context.tenant.workspace_id id)
  attempt-of id none e available = absurd (cc)
  attempt-of id (some d) e available =
      let d-valid =
        All-find DefinitionIsValid
          (λ d. (d.tenant.workspace_id == context.tenant.workspace_id) && (d.id == id))
          s.definitions valid (sym e) in
      subst (λ o. 1 ≤ attempts_of o) e d-valid.0

  enqueue_new-Holds :
      (c : JobEnqueue) (text : Text) (now : Instant)
      → c.available_at < c.deadline
      → 1 ≤ attempts_of (definition_of s.definitions context.tenant.workspace_id c.definition_id)
      → Post (Holds context s) (IsOwn context s) (enqueue_new context c text now)
  unfolding enqueue_new
  enqueue_new-Holds c text now ordered left = bind (reading {Q = Any} _ (λ t h. tt)) λ backlog _.
      bind (guarding _ _) λ _ _. bind (reading {Q = Any} _ (λ t h. tt)) λ recent _.
        bind (guarding _ _) λ _ _. bind (lifting _) λ payload _.
          let new = new_job-IsValid c text payload now ordered left in
          bind (add_job-Holds context s _ (mine_own context) new) λ _ _.
            bind (record_event-Holds context s _ _ _ _ _) λ _ _. return _ (mine_own context, new)

  enqueue_keyed-Holds :
      (c : JobEnqueue) (text : Text) (now : Instant) (o : Option JobInstance)
      → c.available_at < c.deadline
      → 1 ≤ attempts_of (definition_of s.definitions context.tenant.workspace_id c.definition_id)
      → ((r : JobInstance) → o ≡ some r → IsOwn context s r)
      → Post (Holds context s) (IsOwn context s) (enqueue_keyed context c text now o)
  unfolding enqueue_keyed enqueue_existing
  enqueue_keyed-Holds c text now none ordered left own = enqueue_new-Holds c text now ordered left
  enqueue_keyed-Holds c text now (some r) ordered left own =
      bind (guarding _ _) λ _ _. return r (own r refl)

  pub enqueue-Holds :
      (c : JobEnqueue) (now : Option Instant)
      → c.available_at < c.deadline
      → Post (Holds context s) (IsOwn context s) (enqueue context c now)
  unfolding enqueue Repository.definition Repository.job_by_idempotency
  enqueue-Holds c now ordered = bind (authorized-Post context s _) λ _ _.
      bind
        (reading
          {Q = λ o. o ≡ definition_of s.definitions context.tenant.workspace_id c.definition_id} _
          (λ t h.
            ap (λ ds. definition_of ds context.tenant.workspace_id c.definition_id)
              h.same_definitions))
        λ found e. bind (guarding _ _) λ _ available. bind (digest-Post context c) λ text _.
          bind
            (reading {Q = λ o. (r : JobInstance) → o ≡ some r → IsOwn context s r} _ (λ t h r q.
              let test = find-test _ t.jobs q in
              (ground arith, All-find (JobIsValid s.definitions) _ t.jobs h.valid q)))
            λ existing own.
              enqueue_keyed-Holds c text (now_or now context.clock) existing ordered
                (attempt-of c.definition_id found e (ground arith)) own
