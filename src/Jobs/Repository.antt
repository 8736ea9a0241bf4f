-- ===== src/Jobs/Repository.antt =====
-- app/jobs/repository.py: the queries of one workspace, and inserts under the tables' keys.
use wanderra_os.Base.{
  ℕ, zero, suc, ◌+◌, Bool, true, false, not, ◌&&◌, ◌||◌, Option, none, some, List, [], ◌∷◌, ltb,
  leb, ◌==◌, if◌then◌else◌, is_some,
}
use wanderra_os.Base.Text.{Text, text_eq}
use wanderra_os.Base.Json.{str_uuid}
use wanderra_os.Base.Table.{find, select, count_where, order_by}
use wanderra_os.Base.Action.{Action}
use wanderra_os.Jobs.Contracts.{Instant, seconds, Failure, JobStatus}
use wanderra_os.Jobs.Models.{
  Tenant, DefinitionStatus, JobDefinition, JobInstance, JobAttempt, JobDeadLetter, JobSchedule,
  ScheduleStatus, ScopeType, JobOperatorControl, Store, Context,
}

abbrev pub Job : Type 0 → Type 0
Job = Action Store Failure

abbrev pub is_running : JobStatus → Bool
is_running JobStatus.running = true
is_running _ = false

-- `status in ("queued", "retry_wait")`
abbrev pub is_waiting : JobStatus → Bool
is_waiting JobStatus.queued = true
is_waiting JobStatus.retry_wait = true
is_waiting _ = false

-- `status in {"succeeded", "cancelled", "dead_lettered", "expired"}`
abbrev pub is_terminal : JobStatus → Bool
is_terminal JobStatus.succeeded = true
is_terminal JobStatus.cancelled = true
is_terminal JobStatus.dead_lettered = true
is_terminal JobStatus.expired = true
is_terminal _ = false

abbrev pub is_active : DefinitionStatus → Bool
is_active DefinitionStatus.active = true
is_active _ = false

abbrev is_active_schedule : ScheduleStatus → Bool
is_active_schedule ScheduleStatus.active = true
is_active_schedule _ = false

abbrev pub scope_eq : ScopeType → ScopeType → Bool
scope_eq ScopeType.workspace ScopeType.workspace = true
scope_eq ScopeType.definition ScopeType.definition = true
scope_eq ScopeType.other ScopeType.other = true
scope_eq _ _ = false

-- An expiry that is set and not after the instant.
abbrev pub is_past : Option Instant → Instant → Bool
is_past none now = false
is_past (some t) now = leb t now

-- The tenant columns of a primary key.
abbrev pub tenant_eq : Tenant → Tenant → Bool
tenant_eq s t =
    (s.organization_id == t.organization_id)
    && (s.workspace_id == t.workspace_id)
    && (s.cell_id == t.cell_id)

-- `limit(1)`, and `limit(n)`.
abbrev pub first {ℓ} : {A : Type ℓ} → List A → Option A
first [] = none
first (a ∷ _) = some a

abbrev pub take {ℓ} : {A : Type ℓ} → ℕ → List A → List A
take zero rs = []
take (suc n) [] = []
take (suc n) (r ∷ rs) = r ∷ take n rs

-- `order_by(available_at, created_at, id)`
abbrev pub claim_order : JobInstance → JobInstance → Bool
claim_order a b =
    ltb a.available_at b.available_at
    || ((a.available_at == b.available_at)
        && (ltb a.created_at b.created_at || ((a.created_at == b.created_at) && ltb a.id b.id)))

abbrev pub lease_order : JobInstance → JobInstance → Bool
lease_order a b = elim b.lease_expires_at [ none ↦ true | some t ↦ is_past a.lease_expires_at t ]

abbrev pub schedule_order : JobSchedule → JobSchedule → Bool
schedule_order a b =
    ltb a.next_due_at b.next_due_at || ((a.next_due_at == b.next_due_at) && leb a.id b.id)

module _ (context : Context) where
  -- `workspace_id == self.context.tenant.workspace_id`
  abbrev pub is_mine : Tenant → Bool
  is_mine t = t.workspace_id == context.tenant.workspace_id

  abbrev pub is_definition : ℕ → JobDefinition → Bool
  is_definition definition_id r = is_mine r.tenant && (r.id == definition_id)

  abbrev pub is_job : ℕ → JobInstance → Bool
  is_job job_id r = is_mine r.tenant && (r.id == job_id)

  abbrev pub is_attempt : ℕ → ℕ → JobAttempt → Bool
  is_attempt job_id number r =
      is_mine r.tenant && (r.job_id == job_id) && (r.attempt_number == number)

  abbrev pub is_letter : ℕ → JobDeadLetter → Bool
  is_letter job_id r = is_mine r.tenant && (r.job_id == job_id)

  abbrev pub is_schedule : ℕ → JobSchedule → Bool
  is_schedule schedule_id r = is_mine r.tenant && (r.id == schedule_id)

  abbrev pub is_control : ScopeType → Text → JobOperatorControl → Bool
  is_control scope_type scope_reference r =
      is_mine r.tenant
      && scope_eq r.scope_type scope_type
      && text_eq r.scope_reference scope_reference

  unfoldable pub definition : ℕ → Store → Option JobDefinition
  definition definition_id s = find (is_definition definition_id) s.definitions

  unfoldable pub job : ℕ → Store → Option JobInstance
  job job_id s = find (is_job job_id) s.jobs

  unfoldable pub job_by_idempotency : ℕ → Text → Store → Option JobInstance
  job_by_idempotency definition_id idempotency_key s =
      find
        (λ r.
          is_mine r.tenant
          && (r.definition_id == definition_id)
          && text_eq r.idempotency_key idempotency_key)
        s.jobs

  unfoldable pub backlog_count : Store → ℕ
  backlog_count s =
      count_where (λ r. is_mine r.tenant && (is_waiting r.status || is_running r.status)) s.jobs

  -- `created_at > now - timedelta(minutes=1)`
  unfoldable pub recent_enqueue_count : Instant → Store → ℕ
  recent_enqueue_count now s =
      count_where (λ r. is_mine r.tenant && ltb now (r.created_at + seconds 60)) s.jobs

  unfoldable pub workspace_paused : Store → Bool
  workspace_paused s = is_some (
      find
        (λ r. is_control ScopeType.workspace (str_uuid context.tenant.workspace_id) r && r.paused)
        s.controls)

  unfoldable pub definition_paused : ℕ → Store → Bool
  definition_paused definition_id s = is_some (
      find (λ r. is_control ScopeType.definition (str_uuid definition_id) r && r.paused) s.controls)

  unfoldable pub running_count : Store → ℕ
  running_count s = count_where (λ r. is_mine r.tenant && is_running r.status) s.jobs

  unfoldable pub definition_running_count : ℕ → Store → ℕ
  definition_running_count definition_id s =
      count_where
        (λ r. is_mine r.tenant && (r.definition_id == definition_id) && is_running r.status) s.jobs

  -- The attempts of a definition's jobs that began within the last minute.
  unfoldable pub recent_attempt_count : ℕ → Instant → Store → ℕ
  recent_attempt_count definition_id now s =
      count_where
        (λ a.
          is_mine a.tenant
          && ltb now (a.started_at + seconds 60)
          && is_some (find (λ r. is_job a.job_id r && (r.definition_id == definition_id)) s.jobs))
        s.attempts

  -- The join with a job's definition, and the conditions on the definition.
  unfoldable pub joins : Store → JobInstance → JobDefinition → Bool
  unfolding definition_paused
  joins s r d =
      tenant_eq d.tenant r.tenant
      && (d.id == r.definition_id)
      && is_active d.status
      && not (definition_paused d.id s)

  unfoldable pub is_claimable : Instant → Store → JobInstance → Bool
  is_claimable now s r =
      is_mine r.tenant
      && is_waiting r.status
      && leb r.available_at now
      && ltb now r.deadline
      && not (context.is_locked r.id)
      && is_some (find (joins s r) s.definitions)

  unfoldable pub claim_head : Instant → Store → Option JobInstance
  claim_head now s = first (order_by claim_order (select (is_claimable now s) s.jobs))

  unfoldable pub within_limits : Instant → Store → JobInstance → JobDefinition → Bool
  unfolding definition_running_count recent_attempt_count
  within_limits now s r d =
      ltb (definition_running_count d.id s) d.max_concurrency
      && ltb (recent_attempt_count d.id now s) d.rate_limit_per_minute

  unfoldable pub joined :
      Instant → Store → JobInstance → Option JobDefinition → Option (JobInstance × JobDefinition)
  unfolding within_limits
  joined now s r none = none
  joined now s r (some d) = if within_limits now s r d then some (r, d) else none

  unfoldable pub claim_candidate : Instant → Store → Option (JobInstance × JobDefinition)
  claim_candidate now s =
      if workspace_paused s
      then none
      else if leb 20 (running_count s)
      then none
      else elim (claim_head now s) [
        | none ↦ none
        | some r ↦ joined now s r (find (joins s r) s.definitions)
      ]

  unfoldable pub current_attempt : JobInstance → Store → Option JobAttempt
  current_attempt r s = find (is_attempt r.id r.attempt_count) s.attempts

  unfoldable pub expired_leases : Instant → Store → List JobInstance
  expired_leases now s = order_by lease_order (
      select
        (λ r.
          is_mine r.tenant
          && is_running r.status
          && is_past r.lease_expires_at now
          && not (context.is_locked r.id))
        s.jobs)

  unfoldable pub expired_waiting : Instant → Store → List JobInstance
  expired_waiting now s =
      select
        (λ r.
          is_mine r.tenant
          && is_waiting r.status
          && leb r.deadline now
          && not (context.is_locked r.id))
        s.jobs

  unfoldable pub dead_letter : ℕ → Store → Option JobDeadLetter
  dead_letter job_id s = find (is_letter job_id) s.dead_letters

  unfoldable pub schedule : ℕ → Store → Option JobSchedule
  schedule schedule_id s = find (is_schedule schedule_id) s.schedules

  abbrev pub is_due : Instant → JobSchedule → Bool
  is_due now r =
      is_mine r.tenant
      && is_active_schedule r.status
      && leb r.next_due_at now
      && not (context.is_locked r.id)

  unfoldable pub due_schedules : Instant → Store → List JobSchedule
  due_schedules now s = take 100 (order_by schedule_order (select (is_due now) s.schedules))

  unfoldable pub control : ScopeType → Text → Store → Option JobOperatorControl
  control scope_type scope_reference s = find (is_control scope_type scope_reference) s.controls
