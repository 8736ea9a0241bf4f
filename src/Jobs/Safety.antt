-- ===== src/Jobs/Safety.antt =====
-- The invariant of app/jobs over every sequence of calls, and the isolation of workspaces.
use wanderra_os.Base.{
  ◌≤◌, ◌<◌, ◌≡◌, refl, sym, subst, ◌∙◌, true, ◌&&◌, Option, List, [], ◌∷◌, ◌++◌, All, All-append,
  All-mono, arith, ◌==◌, Option-cases, inl, inr,
}
use wanderra_os.Base.Table.{find, select-append_skip, find-append, All-find}
use wanderra_os.Base.Result.{ok}
use wanderra_os.Base.Post.{
  Post, Any, bind, return, guarding, reading, writing, lifting, Any-returned,
}
use wanderra_os.Jobs.Contracts.{
  Instant, JobDefinitionSpec, RetryPolicy, retry_policy, job_definition_spec,
}
use wanderra_os.Jobs.Retry.{IsPolicy, retry_policy-IsPolicy}
use wanderra_os.Jobs.Models.{JobDefinition, JobInstance, Store, Context}
use wanderra_os.Jobs.Repository.{Job, is_mine}
use wanderra_os.Jobs.Session.{add_definition}
use wanderra_os.Jobs.Service.Enqueue.{register_definition}
use wanderra_os.Jobs.Calls.{Call, register, call, run, empty}
use wanderra_os.Jobs.Invariant.{
  budget, DefinitionIsValid, JobIsValid, IsValid, is_foreign, SameForeign, Holds, authorized-Post,
  record_event-Holds, mine_own, enqueue-Holds, claim_next-Holds, heartbeat-Holds, succeed-Holds,
  fail-Holds, cancel-Holds, replay-Holds, set_paused-Holds, set_schedule_paused-Holds,
  register_schedule-Holds, dispatch_due_schedules-Holds, job_enqueue-ordered,
}

-- A new definition takes no attempt from a job.
budget-append :
    (ds : List JobDefinition) (d : JobDefinition) (r : JobInstance)
    → budget ds r ≤ budget (ds ++ (d ∷ [])) r
budget-append ds d r =
    let p = λ (x : JobDefinition).
      (x.tenant.workspace_id == r.tenant.workspace_id) && (x.id == r.definition_id) in
    elim (Option-cases (find p ds)) [
      | inl missing ↦ rw missing (omega arith)
      | inr (x, found) ↦ rw (find-append p ds (d ∷ []) found, found) (omega arith)
    ]

JobIsValid-append :
    (ds : List JobDefinition) (d : JobDefinition) (r : JobInstance)
    → JobIsValid ds r
    → JobIsValid (ds ++ (d ∷ [])) r
JobIsValid-append ds d r v =
    let grown = budget-append ds d r in
    record {
      owned = v.owned;
      leased = v.leased;
      beating = v.beating;
      completed = v.completed;
      resulted = v.resulted;
      ordered = v.ordered;
      versioned = v.versioned;
      counted = omega arith;
      attempt_left = λ waiting. omega (arith, v.attempt_left waiting);
      attempted = v.attempted;
    }

-- The checks of a definition leave its policy, which was accepted.
job_definition_spec-policy :
    (s c : JobDefinitionSpec) → job_definition_spec s ≡ ok c → c.policy ≡ s.policy
unfolding job_definition_spec
job_definition_spec-policy s c e = ground arith

IsPolicy-kept :
    (spec : JobDefinitionSpec) (policy : RetryPolicy) (checked : JobDefinitionSpec)
    → retry_policy spec.policy.max_attempts spec.policy.delays ≡ ok policy
    → job_definition_spec (record spec { policy = policy }) ≡ ok checked
    → IsPolicy checked.policy.max_attempts checked.policy.delays
IsPolicy-kept spec policy checked accepted e =
    let (raw, sound) = retry_policy-IsPolicy spec.policy.max_attempts spec.policy.delays accepted in
    subst (λ (p : RetryPolicy). IsPolicy p.max_attempts p.delays)
      (sym (job_definition_spec-policy (record spec { policy = policy }) checked e ∙ raw)) sound

module _ (context : Context) where
  SameForeign-trans :
      (s t u : Store) → SameForeign context s t → SameForeign context t u → SameForeign context s u
  SameForeign-trans s t u f g =
      (g.0 ∙ f.0, g.1 ∙ f.1, g.2 ∙ f.2, g.3 ∙ f.3, g.4 ∙ f.4, g.5 ∙ f.5, g.6 ∙ f.6, g.7 ∙ f.7)

  -- The store is valid, and no row of another workspace has changed since `s`.
  abbrev pub Keeps : Store → Store → Type 0
  Keeps s t = IsValid t × SameForeign context s t

  Holds-refl : (s : Store) → IsValid s → Holds context s s
  Holds-refl s v = record {
    same_definitions = refl;
    valid = v.jobs_valid;
    foreign = (refl, refl, refl, refl, refl, refl, refl, refl);
  }

  Holds-IsValid : (s t : Store) → IsValid s → Holds context s t → IsValid t
  Holds-IsValid s t v h = record {
    definitions_valid = subst (All DefinitionIsValid) (sym h.same_definitions) v.definitions_valid;
    jobs_valid = subst (λ ds. All (JobIsValid ds) t.jobs) (sym h.same_definitions) h.valid;
  }

  -- What holds from each store on keeps the invariant.
  settle :
      {A : Type 0} (s : Store) (m : Job A)
      → ((t : Store) → All DefinitionIsValid t.definitions → Post (Holds context t) Any m)
      → Post (Keeps s) Any m
  settle s m p = record {
    run = λ t k.
        let after = ((p t k.0.definitions_valid).run t (Holds-refl t k.0)).0 in
        let kept : Keeps s (m t).1 =
          (Holds-IsValid t (m t).1 k.0 after, SameForeign-trans s t (m t).1 k.1 after.foreign) in
        (kept, Any-returned (m t).0);
  }

  add_definition-Keeps :
      (s : Store) (d : JobDefinition)
      → is_mine context d.tenant ≡ true
      → DefinitionIsValid d
      → Post (Keeps s) Any (add_definition context d)
  unfolding add_definition
  add_definition-Keeps s d mine valid = bind (guarding _ _) λ _ _. bind (guarding _ _) λ _ _.
      bind (guarding _ _) λ _ _. bind (reading {Q = Any} _ (λ t h. tt)) λ rows _.
        bind (guarding _ _) λ _ _. writing _ λ t (v, f). (
          record {
            definitions_valid =
                All-append DefinitionIsValid t.definitions (d ∷ []) v.definitions_valid (valid, tt);
            jobs_valid =
                All-mono (JobIsValid t.definitions) (JobIsValid (t.definitions ++ (d ∷ []))) t.jobs
                  (JobIsValid-append t.definitions d) v.jobs_valid;
          },
          (
            select-append_skip (λ (x : JobDefinition). is_foreign context x.tenant) d t.definitions
                  (rw mine)
                ∙ f.0,
            f.1,
            f.2,
            f.3,
            f.4,
            f.5,
            f.6,
            f.7,
          ),
        )

  register-Keeps :
      (s : Store) (spec : JobDefinitionSpec) (now : Option Instant)
      → Post (Keeps s) Any (register context spec now)
  unfolding register register_definition
  register-Keeps s spec now = bind (lifting _) λ policy accepted. bind (lifting _) λ checked e.
      bind
        (bind (authorized-Post context s _) λ _ _. bind (reading {Q = Any} _ (λ t h. tt)) λ _ _.
          bind (guarding _ _) λ _ _.
            bind
              (add_definition-Keeps s _ (mine_own context)
                (IsPolicy-kept spec policy checked accepted e))
              λ _ _.
                bind (settle s _ (λ t _. record_event-Holds context t _ _ _ _ _))
                  λ _ _. return {Q = Any} _ tt)
        λ _ _. return _ tt

  -- Every call keeps the invariant.
  call-Keeps : (s : Store) (c : Call) → Post (Keeps s) Any (call context c)
  unfolding call
  call-Keeps s (Call.register_definition spec now) = register-Keeps s spec now
  call-Keeps s (Call.enqueue input now) = settle s _ λ t v. bind (lifting _) λ command accepted.
      bind (enqueue-Holds context t v command now (job_enqueue-ordered _ _ accepted))
        λ _ _. return _ tt
  call-Keeps s (Call.claim_next worker now duration) =
      settle s _ λ t v. bind (claim_next-Holds context t worker now duration) λ _ _. return _ tt
  call-Keeps s (Call.heartbeat id worker now) =
      settle s _ λ t v. heartbeat-Holds context t id worker now
  call-Keeps s (Call.succeed id worker result now) =
      settle s _ λ t v. bind (succeed-Holds context t id worker result now) λ _ _. return _ tt
  call-Keeps s (Call.fail id worker category code now) =
      settle s _ λ t v. bind (fail-Holds context t id worker category code now) λ _ _. return _ tt
  call-Keeps s (Call.cancel id reason now) =
      settle s _ λ t v. bind (cancel-Holds context t id reason now) λ _ _. return _ tt
  call-Keeps s (Call.replay id new_id key reason now) =
      settle s _ λ t v. bind (replay-Holds context t id new_id key reason now v) λ _ _. return _ tt
  call-Keeps s (Call.set_paused kind scope paused reason version now) = settle s _ λ t v.
      bind (set_paused-Holds context t kind scope paused reason version now) λ _ _. return _ tt
  call-Keeps s (Call.set_schedule_paused id paused reason version now) = settle s _ λ t v.
      bind (set_schedule_paused-Holds context t id paused reason version now) λ _ _. return _ tt
  call-Keeps s (Call.register_schedule spec first command payload prefix deadline now) =
      settle s _ λ t v. bind (lifting _) λ accepted _.
        bind (register_schedule-Holds context t accepted command payload prefix deadline now)
          λ _ _. return _ tt
  call-Keeps s (Call.dispatch_due_schedules now) =
      settle s _ λ t v. bind (dispatch_due_schedules-Holds context t v now) λ _ _. return _ tt

  -- A call of one workspace, by any method, whether it returns or raises, leaves every row of
  -- every other workspace as it was, if the store was valid.
  pub call-SameForeign :
      (c : Call) (s : Store) → IsValid s → SameForeign context s (call context c s).1
  call-SameForeign c s v =
      ((call-Keeps s c).run s (v, (refl, refl, refl, refl, refl, refl, refl, refl))).0.1

  call-IsValid : (c : Call) (s : Store) → IsValid s → IsValid (call context c s).1
  call-IsValid c s v =
      ((call-Keeps s c).run s (v, (refl, refl, refl, refl, refl, refl, refl, refl))).0.0

-- After any calls, by any workspaces and in any order, whether they return or raise, the store is
-- valid if it was before. In a valid store each definition has a retry policy that `RetryPolicy`
-- accepts, and each job has an owner, an expiry and a heartbeat of its lease exactly while it runs,
-- a completion time exactly when it has ended, a result exactly when it succeeded, a deadline
-- behind its availability and a version of at least 1; it has not used more attempts than its
-- definition allows, has one left while it waits, and has begun one while it runs.
pub run-IsValid : (calls : List (Context × Call)) (s : Store) → IsValid s → IsValid (run calls s)
unfolding run
run-IsValid [] s v = v
run-IsValid ((context, c) ∷ calls) s v =
    run-IsValid calls (call context c s).1 (call-IsValid context c s v)

attempts_of-le :
    (ds : List JobDefinition) (r : JobInstance) → All DefinitionIsValid ds → budget ds r ≤ 5
attempts_of-le ds r v =
    let p = λ (x : JobDefinition).
      (x.tenant.workspace_id == r.tenant.workspace_id) && (x.id == r.definition_id) in
    elim (Option-cases (find p ds)) [
      | inl missing ↦ rw missing (omega arith)
      | inr (d, found) ↦ rw found (All-find DefinitionIsValid p ds v found).1
    ]

-- The checks that the table of jobs puts on a row.
abbrev pub MeetsConstraints : JobInstance → Type 0
MeetsConstraints r = (r.attempt_count ≤ 5) × (0 < r.state_version) × (r.available_at < r.deadline)

-- From the empty store, no calls bring a job row that its table's checks on the attempt count, the
-- version and the deadline would refuse, though no method makes these checks when it writes.
pub run-constraints : (calls : List (Context × Call)) → All MeetsConstraints (run calls empty).jobs
run-constraints calls =
    let v = run-IsValid calls empty (record { definitions_valid = tt; jobs_valid = tt }) in
    let ds = (run calls empty).definitions in
    All-mono (JobIsValid ds) MeetsConstraints (run calls empty).jobs
      (λ r h.
        (omega (arith, attempts_of-le ds r v.definitions_valid, h.counted), h.versioned, h.ordered))
      v.jobs_valid
