-- ===== src/Jobs/Invariant/Inserts.antt =====
-- Each insert of a row keeps what holds during a call.
use wanderra_os.Base.{◌≡◌, ◌∙◌, true, [], ◌∷◌, All-append}
use wanderra_os.Base.Table.{select-append_skip}
use wanderra_os.Base.Post.{Post, Any, bind, guarding, reading, writing}
use wanderra_os.Jobs.Models.{
  JobInstance, JobAttempt, JobDeadLetter, JobSchedule, JobOperatorControl, Store, Context,
}
use wanderra_os.Jobs.Repository.{is_mine}
use wanderra_os.Jobs.Session.{add_job, add_attempt, add_dead_letter, add_schedule, add_control}
use wanderra_os.Jobs.Invariant.Rows.{JobIsValid, is_foreign, Holds}
use wanderra_os.Jobs.Invariant.Writes.{not_foreign}

module _ (context : Context) (s : Store) where
  pub add_job-Holds :
      (r : JobInstance)
      → is_mine context r.tenant ≡ true
      → JobIsValid s.definitions r
      → Post (Holds context s) Any (add_job context r)
  unfolding add_job
  add_job-Holds r mine valid = bind (guarding _ _) λ _ _. bind (guarding _ _) λ _ _.
      bind (guarding _ _) λ _ _. bind (reading {Q = Any} _ (λ t h. tt)) λ rows _.
        bind (guarding _ _) λ _ _. writing _ λ t h.
          let f = h.foreign in
          record {
            same_definitions = h.same_definitions;
            valid = All-append (JobIsValid s.definitions) t.jobs (r ∷ []) h.valid (valid, tt);
            foreign = (
              f.0,
              select-append_skip (λ (x : JobInstance). is_foreign context x.tenant) r t.jobs
                    (not_foreign context r.tenant mine)
                  ∙ f.1,
              f.2,
              f.3,
              f.4,
              f.5,
              f.6,
              f.7,
            );
          }

  pub add_attempt-Holds :
      (r : JobAttempt)
      → is_mine context r.tenant ≡ true
      → Post (Holds context s) Any (add_attempt context r)
  unfolding add_attempt
  add_attempt-Holds r mine = bind (guarding _ _) λ _ _. bind (guarding _ _) λ _ _.
      bind (guarding _ _) λ _ _. bind (reading {Q = Any} _ (λ t h. tt)) λ rows _.
        bind (guarding _ _) λ _ _. writing _ λ t h.
          let f = h.foreign in
          record {
            same_definitions = h.same_definitions;
            valid = h.valid;
            foreign = (
              f.0,
              f.1,
              select-append_skip (λ (x : JobAttempt). is_foreign context x.tenant) r t.attempts
                    (not_foreign context r.tenant mine)
                  ∙ f.2,
              f.3,
              f.4,
              f.5,
              f.6,
              f.7,
            );
          }

  pub add_dead_letter-Holds :
      (r : JobDeadLetter)
      → is_mine context r.tenant ≡ true
      → Post (Holds context s) Any (add_dead_letter context r)
  unfolding add_dead_letter
  add_dead_letter-Holds r mine = bind (guarding _ _) λ _ _. bind (guarding _ _) λ _ _.
      bind (guarding _ _) λ _ _. bind (reading {Q = Any} _ (λ t h. tt)) λ rows _.
        bind (guarding _ _) λ _ _. writing _ λ t h.
          let f = h.foreign in
          record {
            same_definitions = h.same_definitions;
            valid = h.valid;
            foreign = (
              f.0,
              f.1,
              f.2,
              select-append_skip (λ (x : JobDeadLetter). is_foreign context x.tenant) r
                    t.dead_letters (not_foreign context r.tenant mine)
                  ∙ f.3,
              f.4,
              f.5,
              f.6,
              f.7,
            );
          }

  pub add_schedule-Holds :
      (r : JobSchedule)
      → is_mine context r.tenant ≡ true
      → Post (Holds context s) Any (add_schedule context r)
  unfolding add_schedule
  add_schedule-Holds r mine = bind (guarding _ _) λ _ _. bind (guarding _ _) λ _ _.
      bind (guarding _ _) λ _ _. bind (reading {Q = Any} _ (λ t h. tt)) λ rows _.
        bind (guarding _ _) λ _ _. writing _ λ t h.
          let f = h.foreign in
          record {
            same_definitions = h.same_definitions;
            valid = h.valid;
            foreign = (
              f.0,
              f.1,
              f.2,
              f.3,
              select-append_skip (λ (x : JobSchedule). is_foreign context x.tenant) r t.schedules
                    (not_foreign context r.tenant mine)
                  ∙ f.4,
              f.5,
              f.6,
              f.7,
            );
          }

  pub add_control-Holds :
      (r : JobOperatorControl)
      → is_mine context r.tenant ≡ true
      → Post (Holds context s) Any (add_control context r)
  unfolding add_control
  add_control-Holds r mine = bind (guarding _ _) λ _ _. bind (guarding _ _) λ _ _.
      bind (guarding _ _) λ _ _. bind (reading {Q = Any} _ (λ t h. tt)) λ rows _.
        bind (guarding _ _) λ _ _. writing _ λ t h.
          let f = h.foreign in
          record {
            same_definitions = h.same_definitions;
            valid = h.valid;
            foreign = (
              f.0,
              f.1,
              f.2,
              f.3,
              f.4,
              select-append_skip (λ (x : JobOperatorControl). is_foreign context x.tenant) r
                    t.controls (not_foreign context r.tenant mine)
                  ∙ f.5,
              f.6,
              f.7,
            );
          }
