-- ===== src/Jobs/Session.antt =====
-- The writes of app/jobs/repository.py and of the ORM session: an insert under the keys of the
-- table (app/jobs/models.py), and the flush of a row's assignments. A key that exists is the
-- database's error, and nothing is inserted.
use wanderra_os.Base.{ℕ, suc, Bool, true, false, not, List, ◌&&◌, ◌||◌, [], ◌∷◌, ◌++◌, ◌==◌, any}
use wanderra_os.Base.Text.{text_eq}
use wanderra_os.Base.Table.{update}
use wanderra_os.Base.Result.{ok}
use wanderra_os.Base.Action.{◌>>=◌, ◌>>◌, raise_if, gets, modify}
use wanderra_os.Jobs.Contracts.{
  Instant, constraint_violated, context_unbound, context_differs, cross_workspace,
}
use wanderra_os.Jobs.Models.{
  Tenant, JobDefinition, JobInstance, JobAttempt, JobDeadLetter, JobSchedule, JobOperatorControl,
  EventType, AggregateType, AuditRow, OutboxRow, Context,
}
use wanderra_os.Jobs.Repository.{
  Job, is_mine, scope_eq, tenant_eq, is_job, is_attempt, is_letter, is_schedule, is_control,
}

module _ (context : Context) where
  -- `require_workspace` of `ContextBoundRepository`, with what `add` does behind it.
  abbrev pub requiring : Tenant → Job (Unit {0}) → Job (Unit {0})
  requiring tenant rest = do
    raise_if (not context.is_bound) context_unbound
    raise_if (not context.is_current) context_differs
    raise_if (not (is_mine context tenant)) cross_workspace
    rest

  -- `pk_job_definitions` and `uq_job_definitions_key_version`
  unfoldable pub add_definition : JobDefinition → Job (Unit {0})
  add_definition r = requiring r.tenant do
    raise_if
        (any
          (λ d.
            tenant_eq d.tenant r.tenant
            && ((d.id == r.id)
                || (text_eq d.definition_key r.definition_key
                    && (d.definition_version == r.definition_version))))
          (← gets (λ s. s.definitions)))
        constraint_violated
    modify (λ s. record s { definitions = s.definitions ++ (r ∷ []) })

  -- `pk_job_instances` and `uq_job_instances_idempotency`
  unfoldable pub add_job : JobInstance → Job (Unit {0})
  add_job r = requiring r.tenant do
    raise_if
        (any
          (λ j.
            tenant_eq j.tenant r.tenant
            && ((j.id == r.id)
                || ((j.definition_id == r.definition_id)
                    && text_eq j.idempotency_key r.idempotency_key)))
          (← gets (λ s. s.jobs)))
        constraint_violated
    modify (λ s. record s { jobs = s.jobs ++ (r ∷ []) })

  -- `pk_job_attempts` and `uq_job_attempts_number`
  unfoldable pub add_attempt : JobAttempt → Job (Unit {0})
  add_attempt r = requiring r.tenant do
    raise_if
        (any
          (λ a.
            tenant_eq a.tenant r.tenant
            && ((a.id == r.id)
                || ((a.job_id == r.job_id) && (a.attempt_number == r.attempt_number))))
          (← gets (λ s. s.attempts)))
        constraint_violated
    modify (λ s. record s { attempts = s.attempts ++ (r ∷ []) })

  -- `pk_job_dead_letters` and `uq_job_dead_letters_job`
  unfoldable pub add_dead_letter : JobDeadLetter → Job (Unit {0})
  add_dead_letter r = requiring r.tenant do
    raise_if
        (any (λ l. tenant_eq l.tenant r.tenant && ((l.id == r.id) || (l.job_id == r.job_id)))
          (← gets (λ s. s.dead_letters)))
        constraint_violated
    modify (λ s. record s { dead_letters = s.dead_letters ++ (r ∷ []) })

  -- `pk_job_schedules`
  unfoldable pub add_schedule : JobSchedule → Job (Unit {0})
  add_schedule r = requiring r.tenant do
    raise_if (any (λ p. tenant_eq p.tenant r.tenant && (p.id == r.id)) (← gets (λ s. s.schedules)))
        constraint_violated
    modify (λ s. record s { schedules = s.schedules ++ (r ∷ []) })

  -- `pk_job_operator_controls` and `uq_job_operator_controls_scope`
  unfoldable pub add_control : JobOperatorControl → Job (Unit {0})
  add_control r = requiring r.tenant do
    raise_if
        (any
          (λ c.
            tenant_eq c.tenant r.tenant
            && ((c.id == r.id)
                || (scope_eq c.scope_type r.scope_type
                    && text_eq c.scope_reference r.scope_reference)))
          (← gets (λ s. s.controls)))
        constraint_violated
    modify (λ s. record s { controls = s.controls ++ (r ∷ []) })

abbrev pub aggregate_eq : AggregateType → AggregateType → Bool
aggregate_eq AggregateType.job_definition AggregateType.job_definition = true
aggregate_eq AggregateType.job AggregateType.job = true
aggregate_eq AggregateType.job_schedule AggregateType.job_schedule = true
aggregate_eq AggregateType.job_control AggregateType.job_control = true
aggregate_eq _ _ = false

-- `pk_outbox_events` and `uq_outbox_aggregate_sequence` of app/tenancy/models.py
abbrev pub same_outbox : OutboxRow → OutboxRow → Bool
same_outbox r x =
    (x.workspace_id == r.workspace_id)
    && ((x.id == r.id)
        || (aggregate_eq x.aggregate_type r.aggregate_type
            && (x.aggregate_id == r.aggregate_id)
            && (x.aggregate_sequence == r.aggregate_sequence)))

unfoldable pub outbox_taken : OutboxRow → List OutboxRow → Bool
outbox_taken r rows = any (same_outbox r) rows

unfoldable pub add_outbox : OutboxRow → Job (Unit {0})
add_outbox r = do
  raise_if (outbox_taken r (← gets (λ s. s.outbox))) constraint_violated
  modify (λ s. record s { outbox = s.outbox ++ (r ∷ []) })

module _ (context : Context) where
  -- The assignments to a loaded row are written back to the row that the query found.
  unfoldable pub save_job : JobInstance → Job (Unit {0})
  save_job r = modify (λ s. record s { jobs = update (is_job context r.id) (λ _. r) s.jobs })

  unfoldable pub save_attempt : JobAttempt → Job (Unit {0})
  save_attempt r = modify (λ s. record s {
    attempts = update (is_attempt context r.job_id r.attempt_number) (λ _. r) s.attempts;
  })

  unfoldable pub save_letter : JobDeadLetter → Job (Unit {0})
  save_letter r =
      modify (λ s. record s {
        dead_letters = update (is_letter context r.job_id) (λ _. r) s.dead_letters;
      })

  unfoldable pub save_schedule : JobSchedule → Job (Unit {0})
  save_schedule r =
      modify (λ s. record s { schedules = update (is_schedule context r.id) (λ _. r) s.schedules })

  unfoldable pub save_control : JobOperatorControl → Job (Unit {0})
  save_control r = modify (λ s. record s {
    controls = update (is_control context r.scope_type r.scope_reference) (λ _. r) s.controls;
  })

  -- `self._id_factory()`
  unfoldable pub new_id : Job ℕ
  new_id s = (ok (context.id_factory s.ids_drawn), record s { ids_drawn = suc s.ids_drawn })

  unfoldable pub audit_row : ℕ → ℕ → EventType → AggregateType → AuditRow
  audit_row aggregate_id sequence event_type aggregate_type = record {
    workspace_id = context.tenant.workspace_id;
    actor_id = context.actor_id;
    action = event_type;
    target_type = aggregate_type;
    target_id = aggregate_id;
    state_version = sequence;
    correlation_id = context.correlation_id;
  }

  unfoldable pub outbox_row : ℕ → ℕ → ℕ → EventType → AggregateType → Instant → OutboxRow
  outbox_row id aggregate_id sequence event_type aggregate_type now = record {
    workspace_id = context.tenant.workspace_id;
    id = id;
    event_type = event_type;
    aggregate_type = aggregate_type;
    aggregate_id = aggregate_id;
    aggregate_sequence = sequence;
    actor_id = context.actor_id;
    delegation_id = context.delegation_id;
    correlation_id = context.correlation_id;
    recorded_at = now;
  }

  -- `_record`: one audit row and one outbox row, which carries the aggregate's version.
  unfoldable pub record_event : ℕ → ℕ → EventType → AggregateType → Instant → Job (Unit {0})
  unfolding new_id audit_row outbox_row
  record_event aggregate_id sequence event_type aggregate_type now = do
    modify (λ s. record s {
      audit = s.audit ++ (audit_row aggregate_id sequence event_type aggregate_type ∷ []);
    })
    id ← new_id
    add_outbox (outbox_row id aggregate_id sequence event_type aggregate_type now)
