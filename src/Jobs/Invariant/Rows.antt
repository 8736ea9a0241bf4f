-- ===== src/Jobs/Invariant/Rows.antt =====
-- The invariant of the job rows, and that a workspace leaves the rows of the others alone.
use wanderra_os.Base.{
  ℕ, ◌≤◌, ◌<◌, ◌≡◌, Bool, true, false, not, ◌&&◌, Option, none, some, List, All, ◌==◌, is_some,
}
use wanderra_os.Base.Table.{find, select}
use wanderra_os.Jobs.Contracts.{JobStatus}
use wanderra_os.Jobs.Retry.{IsPolicy}
use wanderra_os.Jobs.Models.{Tenant, JobDefinition, JobInstance, Store, Context}
use wanderra_os.Jobs.Repository.{is_running, is_waiting, is_terminal, is_mine}

-- The definition of a job, in the job's own workspace.
abbrev pub definition_of : List JobDefinition → ℕ → ℕ → Option JobDefinition
definition_of definitions workspace_id definition_id =
    find (λ d. (d.tenant.workspace_id == workspace_id) && (d.id == definition_id)) definitions

abbrev pub attempts_of : Option JobDefinition → ℕ
attempts_of none = 0
attempts_of (some d) = d.max_attempts

-- The attempts that a job may make.
abbrev pub budget : List JobDefinition → JobInstance → ℕ
budget definitions r = attempts_of (definition_of definitions r.tenant.workspace_id r.definition_id)

abbrev pub DefinitionIsValid : JobDefinition → Type 0
DefinitionIsValid d = IsPolicy d.max_attempts d.retry_delays

abbrev pub is_succeeded : JobStatus → Bool
is_succeeded JobStatus.succeeded = true
is_succeeded _ = false

-- A job has a lease exactly while it runs, is complete exactly when it has ended, has a result
-- exactly when it succeeded, and has an attempt left while it waits.
pub record JobIsValid (definitions : List JobDefinition) (r : JobInstance) : Type 0 where
  pub owned : is_some r.lease_owner ≡ is_running r.status
  pub leased : is_some r.lease_expires_at ≡ is_running r.status
  pub beating : is_some r.heartbeat_at ≡ is_running r.status
  pub completed : is_some r.completed_at ≡ is_terminal r.status
  pub resulted : is_some r.result_digest ≡ is_succeeded r.status
  pub ordered : r.available_at < r.deadline
  pub versioned : 1 ≤ r.state_version
  pub counted : r.attempt_count ≤ budget definitions r
  pub attempt_left : is_waiting r.status ≡ true → r.attempt_count < budget definitions r
  pub attempted : is_running r.status ≡ true → 1 ≤ r.attempt_count

pub record IsValid (s : Store) : Type 0 where
  pub definitions_valid : All DefinitionIsValid s.definitions
  pub jobs_valid : All (JobIsValid s.definitions) s.jobs

module _ (context : Context) where
  -- A row of another workspace.
  abbrev pub is_foreign : Tenant → Bool
  is_foreign t = not (is_mine context t)

  -- Two stores hold the same rows of other workspaces: definitions, jobs, attempts, dead
  -- letters, schedules, controls, audit rows and outbox rows.
  abbrev pub SameForeign : Store → Store → Type 0
  SameForeign s t =
      (select (λ r. is_foreign r.tenant) t.definitions
        ≡ select (λ r. is_foreign r.tenant) s.definitions)
      × (select (λ r. is_foreign r.tenant) t.jobs ≡ select (λ r. is_foreign r.tenant) s.jobs)
      × (select (λ r. is_foreign r.tenant) t.attempts
          ≡ select (λ r. is_foreign r.tenant) s.attempts)
      × (select (λ r. is_foreign r.tenant) t.dead_letters
          ≡ select (λ r. is_foreign r.tenant) s.dead_letters)
      × (select (λ r. is_foreign r.tenant) t.schedules
          ≡ select (λ r. is_foreign r.tenant) s.schedules)
      × (select (λ r. is_foreign r.tenant) t.controls
          ≡ select (λ r. is_foreign r.tenant) s.controls)
      × (select (λ r. not (r.workspace_id == context.tenant.workspace_id)) t.audit
          ≡ select (λ r. not (r.workspace_id == context.tenant.workspace_id)) s.audit)
      × (select (λ r. not (r.workspace_id == context.tenant.workspace_id)) t.outbox
          ≡ select (λ r. not (r.workspace_id == context.tenant.workspace_id)) s.outbox)

  -- What holds at each point of a call that began in `s`: the definitions are those of `s`, the
  -- jobs are valid under them, and no row of another workspace has changed.
  pub record Holds (s t : Store) : Type 0 where
    pub same_definitions : t.definitions ≡ s.definitions
    pub valid : All (JobIsValid s.definitions) t.jobs
    pub foreign : SameForeign s t
