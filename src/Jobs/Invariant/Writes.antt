-- ===== src/Jobs/Invariant/Writes.antt =====
-- Each write of a row, and each event, keeps what holds during a call.
use wanderra_os.Base.{ℕ, ◌≡◌, ◌∙◌, true, false, not, ◌==◌, arith}
use wanderra_os.Base.Table.{All-update, select-update_skip, select-append_skip}
use wanderra_os.Base.Post.{Post, Any, bind, reading, guarding, writing}
use wanderra_os.Jobs.Contracts.{Instant}
use wanderra_os.Jobs.Models.{
  JobInstance, JobAttempt, JobDeadLetter, JobSchedule, JobOperatorControl, EventType, AggregateType,
  Tenant, AuditRow, OutboxRow, Store, Context,
}
use wanderra_os.Jobs.Repository.{is_mine, is_job, is_attempt, is_letter, is_schedule, is_control}
use wanderra_os.Jobs.Session.{
  save_job, save_attempt, save_letter, save_schedule, save_control, new_id, add_outbox,
  record_event,
}
use wanderra_os.Jobs.Invariant.Rows.{JobIsValid, is_foreign, Holds}

-- A row of the workspace is no foreign row.
pub not_foreign :
    (context : Context) (t : Tenant) → is_mine context t ≡ true → is_foreign context t ≡ false
not_foreign context t mine = rw mine

pub mine_own : (context : Context) → is_mine context context.tenant ≡ true
mine_own context = ground arith

pub own : (context : Context) → is_foreign context context.tenant ≡ false
own context = ground arith

module _ (context : Context) (s : Store) where
  pub save_job-Holds :
      (r : JobInstance)
      → is_mine context r.tenant ≡ true
      → JobIsValid s.definitions r
      → Post (Holds context s) Any (save_job context r)
  unfolding save_job
  save_job-Holds r mine valid = writing _ λ t h.
      let f = h.foreign in
      record {
        same_definitions = h.same_definitions;
        valid =
            All-update (JobIsValid s.definitions) (is_job context r.id) (λ _. r) t.jobs
              (λ _ _ _. valid) h.valid;
        foreign = (
          f.0,
          select-update_skip (λ (x : JobInstance). is_foreign context x.tenant)
                (is_job context r.id) r t.jobs (λ x hit. ground arith)
                (not_foreign context r.tenant mine)
              ∙ f.1,
          f.2,
          f.3,
          f.4,
          f.5,
          f.6,
          f.7,
        );
      }

  pub save_attempt-Holds :
      (r : JobAttempt)
      → is_mine context r.tenant ≡ true
      → Post (Holds context s) Any (save_attempt context r)
  unfolding save_attempt
  save_attempt-Holds r mine = writing _ λ t h.
      let f = h.foreign in
      record {
        same_definitions = h.same_definitions;
        valid = h.valid;
        foreign = (
          f.0,
          f.1,
          select-update_skip (λ (x : JobAttempt). is_foreign context x.tenant)
                (is_attempt context r.job_id r.attempt_number) r t.attempts (λ x hit. ground arith)
                (not_foreign context r.tenant mine)
              ∙ f.2,
          f.3,
          f.4,
          f.5,
          f.6,
          f.7,
        );
      }

  pub save_letter-Holds :
      (r : JobDeadLetter)
      → is_mine context r.tenant ≡ true
      → Post (Holds context s) Any (save_letter context r)
  unfolding save_letter
  save_letter-Holds r mine = writing _ λ t h.
      let f = h.foreign in
      record {
        same_definitions = h.same_definitions;
        valid = h.valid;
        foreign = (
          f.0,
          f.1,
          f.2,
          select-update_skip (λ (x : JobDeadLetter). is_foreign context x.tenant)
                (is_letter context r.job_id) r t.dead_letters (λ x hit. ground arith)
                (not_foreign context r.tenant mine)
              ∙ f.3,
          f.4,
          f.5,
          f.6,
          f.7,
        );
      }

  pub save_schedule-Holds :
      (r : JobSchedule)
      → is_mine context r.tenant ≡ true
      → Post (Holds context s) Any (save_schedule context r)
  unfolding save_schedule
  save_schedule-Holds r mine = writing _ λ t h.
      let f = h.foreign in
      record {
        same_definitions = h.same_definitions;
        valid = h.valid;
        foreign = (
          f.0,
          f.1,
          f.2,
          f.3,
          select-update_skip (λ (x : JobSchedule). is_foreign context x.tenant)
                (is_schedule context r.id) r t.schedules (λ x hit. ground arith)
                (not_foreign context r.tenant mine)
              ∙ f.4,
          f.5,
          f.6,
          f.7,
        );
      }

  pub save_control-Holds :
      (r : JobOperatorControl)
      → is_mine context r.tenant ≡ true
      → Post (Holds context s) Any (save_control context r)
  unfolding save_control
  save_control-Holds r mine = writing _ λ t h.
      let f = h.foreign in
      record {
        same_definitions = h.same_definitions;
        valid = h.valid;
        foreign = (
          f.0,
          f.1,
          f.2,
          f.3,
          f.4,
          select-update_skip (λ (x : JobOperatorControl). is_foreign context x.tenant)
                (is_control context r.scope_type r.scope_reference) r t.controls
                (λ x hit. ground arith) (not_foreign context r.tenant mine)
              ∙ f.5,
          f.6,
          f.7,
        );
      }

  pub new_id-Holds : Post (Holds context s) Any (new_id context)
  unfolding new_id
  new_id-Holds = record {
    run = λ t h. (
      record { same_definitions = h.same_definitions; valid = h.valid; foreign = h.foreign },
      tt,
    );
  }

  add_outbox-Holds :
      (r : OutboxRow)
      → not (r.workspace_id == context.tenant.workspace_id) ≡ false
      → Post (Holds context s) Any (add_outbox r)
  unfolding add_outbox
  add_outbox-Holds r mine = bind (reading {Q = Any} _ (λ t h. tt)) λ rows _.
      bind (guarding _ _) λ _ _. writing _ λ t h.
        let f = h.foreign in
        record {
          same_definitions = h.same_definitions;
          valid = h.valid;
          foreign = (
            f.0,
            f.1,
            f.2,
            f.3,
            f.4,
            f.5,
            f.6,
            select-append_skip
                  (λ (x : OutboxRow). not (x.workspace_id == context.tenant.workspace_id)) r
                  t.outbox mine
                ∙ f.7,
          );
        }

  pub record_event-Holds :
      (id sequence : ℕ) (event : EventType) (kind : AggregateType) (now : Instant)
      → Post (Holds context s) Any (record_event context id sequence event kind now)
  unfolding record_event
  record_event-Holds id sequence event kind now =
      bind
        (writing _ λ t h.
          let f = h.foreign in
          record {
            same_definitions = h.same_definitions;
            valid = h.valid;
            foreign = (
              f.0,
              f.1,
              f.2,
              f.3,
              f.4,
              f.5,
              select-append_skip
                    (λ (x : AuditRow). not (x.workspace_id == context.tenant.workspace_id)) _
                    t.audit (own context)
                  ∙ f.6,
              f.7,
            );
          })
        λ _ _. bind new_id-Holds λ drawn _. add_outbox-Holds _ (own context)
