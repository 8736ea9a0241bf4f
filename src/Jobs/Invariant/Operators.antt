-- ===== src/Jobs/Invariant/Operators.antt =====
-- The methods that operators call, and the dispatch of schedules, keep what holds during a call.
use wanderra_os.Base.{
  ℕ, zero, suc, ◌<◌, ◌≡◌, refl, Bool, true, false, Option, none, some, List, [], ◌∷◌, All, All-mono,
  arith, Bool-cases, inl, inr,
}
use wanderra_os.Base.Text.{Text}
use wanderra_os.Base.Json.{Json}
use wanderra_os.Base.Table.{find-test, All-select_test, All-order_by}
use wanderra_os.Base.Post.{Post, Any, bind, return, guarding, reading, lifting, requiring}
use wanderra_os.Base.Result.{ok}
use wanderra_os.Jobs.Contracts.{Instant, EnqueueInput, JobEnqueue, job_enqueue}
use wanderra_os.Jobs.Schedules.{ScheduleSpec}
use wanderra_os.Jobs.Models.{
  JobInstance, JobDeadLetter, JobSchedule, ScopeType, JobOperatorControl, Store, Context,
}
use wanderra_os.Jobs.Repository
use wanderra_os.Jobs.Repository.{
  is_mine, is_running, is_terminal, is_letter, is_control, is_schedule, schedule_order, is_due,
  take,
}
use wanderra_os.Jobs.Service.Operator.{
  cancelled, cancel, link_replay, replay, write_control, set_paused, set_schedule_paused,
}
use wanderra_os.Jobs.Service.Enqueue.{now_or}
use wanderra_os.Jobs.Service.Dispatch.{
  register_schedule, enqueue_occurrences, dispatch_schedule, dispatch_schedules,
  dispatch_due_schedules, touched, advanced,
}
use wanderra_os.Jobs.Invariant.Rows.{Holds, DefinitionIsValid}
use wanderra_os.Jobs.Invariant.Writes.{
  save_job-Holds, save_letter-Holds, save_control-Holds, save_schedule-Holds, new_id-Holds,
  record_event-Holds, mine_own,
}
use wanderra_os.Jobs.Invariant.Inserts.{add_control-Holds, add_schedule-Holds}
use wanderra_os.Jobs.Invariant.Guards.{
  IsOwn, checked_reason-Post, authorized-Post, require_job-Holds, require_definition-Holds,
}
use wanderra_os.Jobs.Invariant.Worker.{enqueue-Holds}

-- A command that was accepted has its deadline behind its availability.
pub job_enqueue-ordered :
    (i : EnqueueInput) (c : JobEnqueue) → job_enqueue i ≡ ok c → c.available_at < c.deadline
unfolding job_enqueue
job_enqueue-ordered i c e = ground arith

module _ (context : Context) (s : Store) where
  cancelled-IsOwn :
      (r : JobInstance) (reason : Text) (now : Instant)
      → IsOwn context s r
      → is_terminal r.status ≡ false
      → IsOwn context s (cancelled r reason now)
  unfolding cancelled
  cancelled-IsOwn r reason now (mine, v) live = elim (Bool-cases (is_running r.status)) [
    | inl e ↦ rw e (mine, ground arith)
    | inr e ↦ rw e (mine, ground arith)
  ]

  pub cancel-Holds :
      (id : ℕ) (text : Text) (now : Option Instant)
      → Post (Holds context s) Any (cancel context id text now)
  unfolding cancel
  cancel-Holds id text now = bind (authorized-Post context s _) λ _ _.
      bind (require_job-Holds context s id) λ r own. bind (checked_reason-Post text) λ reason _.
        bind (guarding _ _) λ _ live.
          let after = cancelled-IsOwn r reason (now_or now context.clock) own.0 live in
          bind (save_job-Holds context s _ after.0 after.1)
            λ _ _. bind (record_event-Holds context s _ _ _ _ _) λ _ _. return _ tt

  link_replay-Holds :
      (original : JobInstance) (letter : JobDeadLetter) (enqueued : JobInstance) (reason : Text)
      (now : Instant)
      → IsOwn context s original
      → is_mine context letter.tenant ≡ true
      → IsOwn context s enqueued
      → Post (Holds context s) Any (link_replay context original letter enqueued reason now)
  unfolding link_replay
  link_replay-Holds original letter enqueued reason now (mine, v) own (mine', v') =
      bind (save_job-Holds context s _ mine' (ground arith)) λ _ _.
        bind (save_letter-Holds context s _ own) λ _ _.
          bind (save_job-Holds context s _ mine (ground arith))
            λ _ _. bind (record_event-Holds context s _ _ _ _ _) λ _ _. return _ tt

  find_letter-mine :
      (id : ℕ) (t : Store) (letter : JobDeadLetter)
      → Repository.dead_letter context id t ≡ some letter
      → is_mine context letter.tenant ≡ true
  unfolding Repository.dead_letter
  find_letter-mine id t letter e =
      let test = find-test (is_letter context id) t.dead_letters e in ground arith

  pub replay-Holds :
      (id new_id : ℕ) (key text : Text) (now : Instant)
      → All DefinitionIsValid s.definitions
      → Post (Holds context s) Any (replay context id new_id key text now)
  unfolding replay
  replay-Holds id new_id key text now valid = bind (authorized-Post context s _) λ _ _.
      bind (require_job-Holds context s id) λ original own.
        bind
          (reading {Q = λ o. (l : JobDeadLetter) → o ≡ some l → is_mine context l.tenant ≡ true} _
            (λ t h l e. find_letter-mine id t l e))
          λ found mine. bind (guarding _ _) λ _ _. bind (requiring found _) λ letter e.
            bind (guarding _ _) λ _ _. bind (checked_reason-Post text) λ reason _.
              bind (lifting _) λ c accepted.
                bind (enqueue-Holds context s valid c (some now) (job_enqueue-ordered _ c accepted))
                  λ enqueued own'.
                    link_replay-Holds original letter enqueued reason now own.0 (mine letter e) own'

  write_control-Holds :
      (kind : ScopeType) (scope : Text) (paused : Bool) (reason : Text) (now : Instant)
      (o : Option JobOperatorControl)
      → ((r : JobOperatorControl) → o ≡ some r → is_mine context r.tenant ≡ true)
      → Post (Holds context s) Any (write_control context kind scope paused reason now o)
  unfolding write_control
  write_control-Holds kind scope paused reason now none mine =
      bind (new_id-Holds context s)
        λ id _. bind (add_control-Holds context s _ (mine_own context)) λ _ _. return _ tt
  write_control-Holds kind scope paused reason now (some r) mine =
      bind (save_control-Holds context s _ (mine r refl)) λ _ _. return _ tt

  find_control-mine :
      (kind : ScopeType) (scope : Text) (t : Store) (r : JobOperatorControl)
      → Repository.control context kind scope t ≡ some r
      → is_mine context r.tenant ≡ true
  unfolding Repository.control
  find_control-mine kind scope t r e =
      let test = find-test (is_control context kind scope) t.controls e in ground arith

  pub set_paused-Holds :
      (kind : ScopeType) (scope : Text) (paused : Bool) (text : Text) (version : ℕ)
      (now : Option Instant)
      → Post (Holds context s) Any (set_paused context kind scope paused text version now)
  unfolding set_paused
  set_paused-Holds kind scope paused text version now = bind (authorized-Post context s _) λ _ _.
      bind (guarding _ _) λ _ _. bind (guarding _ _) λ _ _.
        bind (checked_reason-Post text) λ reason _.
          bind
            (reading
              {Q = λ o. (r : JobOperatorControl) → o ≡ some r → is_mine context r.tenant ≡ true} _
              (λ t h r e. find_control-mine kind scope t r e))
            λ found mine. bind (guarding _ _) λ _ _.
              bind (write_control-Holds kind scope paused reason _ found mine)
                λ value _. bind (record_event-Holds context s _ _ _ _ _) λ _ _. return _ tt

  find_schedule-mine :
      (id : ℕ) (t : Store) (r : JobSchedule)
      → Repository.schedule context id t ≡ some r
      → is_mine context r.tenant ≡ true
  unfolding Repository.schedule
  find_schedule-mine id t r e =
      let test = find-test (is_schedule context id) t.schedules e in ground arith

  pub set_schedule_paused-Holds :
      (id : ℕ) (paused : Bool) (text : Text) (version : ℕ) (now : Option Instant)
      → Post (Holds context s) Any (set_schedule_paused context id paused text version now)
  unfolding set_schedule_paused
  set_schedule_paused-Holds id paused text version now = bind (authorized-Post context s _) λ _ _.
      bind
        (reading {Q = λ o. (r : JobSchedule) → o ≡ some r → is_mine context r.tenant ≡ true} _
          (λ t h r e. find_schedule-mine id t r e))
        λ found mine. bind (requiring found _) λ r e. bind (guarding _ _) λ _ _.
          bind (guarding _ _) λ _ _. bind (checked_reason-Post text) λ _ _.
            bind (save_schedule-Holds context s _ (mine r e))
              λ _ _. bind (record_event-Holds context s _ _ _ _ _) λ _ _. return _ tt

  pub register_schedule-Holds :
      (spec : ScheduleSpec) (command : Text) (payload : Json) (prefix : Text) (deadline : ℕ)
      (now : Option Instant)
      → Post
          (Holds context s)
          Any
          (register_schedule context spec command payload prefix deadline now)
  unfolding register_schedule
  register_schedule-Holds spec command payload prefix deadline now =
      bind (authorized-Post context s _) λ _ _.
        bind (require_definition-Holds context s spec.definition_id) λ _ _.
          bind (reading {Q = Any} _ (λ t h. tt)) λ existing _. bind (guarding _ _) λ _ _.
            bind (guarding _ _) λ _ _. bind (lifting _) λ stored _.
              bind (add_schedule-Holds context s _ (mine_own context))
                λ _ _. bind (record_event-Holds context s _ _ _ _ _) λ _ _. return _ tt

  module _ (valid : All DefinitionIsValid s.definitions) where
    enqueue_occurrences-Holds :
        (r : JobSchedule) (ts : List Instant) (now : Instant)
        → Post (Holds context s) Any (enqueue_occurrences context r ts now)
    unfolding enqueue_occurrences
    enqueue_occurrences-Holds r [] now = return _ tt
    enqueue_occurrences-Holds r (t ∷ ts) now = bind (new_id-Holds context s) λ id _.
        bind (lifting _) λ c accepted.
          bind (enqueue-Holds context s valid c (some now) (job_enqueue-ordered _ c accepted))
            λ created _. bind (enqueue_occurrences-Holds r ts now) λ _ _. return _ tt

    abbrev IsMine : JobSchedule → Type 0
    IsMine r = is_mine context r.tenant ≡ true

    advanced-IsMine :
        (r : JobSchedule) (o : Option Instant) (now : Instant)
        → IsMine r
        → IsMine (advanced (touched r now) o)
    unfolding advanced touched
    advanced-IsMine r none now mine = mine
    advanced-IsMine r (some t) now mine = mine

    dispatch_schedule-Holds :
        (r : JobSchedule) (now : Instant)
        → IsMine r
        → Post (Holds context s) Any (dispatch_schedule context r now)
    unfolding dispatch_schedule
    dispatch_schedule-Holds r now mine = bind (lifting _) λ spec _. bind (lifting _) λ due _.
        bind (enqueue_occurrences-Holds r due now) λ created _.
          bind (save_schedule-Holds context s _ mine) λ _ _. bind (lifting _) λ following _.
            bind (save_schedule-Holds context s _ (advanced-IsMine r following now mine))
              λ _ _. bind (record_event-Holds context s _ _ _ _ _) λ _ _. return _ tt

    dispatch_schedules-Holds :
        (rs : List JobSchedule) (now : Instant)
        → All IsMine rs
        → Post (Holds context s) Any (dispatch_schedules context rs now)
    unfolding dispatch_schedules
    dispatch_schedules-Holds [] now mine = return _ tt
    dispatch_schedules-Holds (r ∷ rs) now mine =
        bind (dispatch_schedule-Holds r now mine.0)
          λ created _. bind (dispatch_schedules-Holds rs now mine.1) λ rest _. return _ tt

    All-take : (n : ℕ) (rs : List JobSchedule) → All IsMine rs → All IsMine (take n rs)
    All-take zero rs a = tt
    All-take (suc n) [] a = tt
    All-take (suc n) (r ∷ rs) a = (a.0, All-take n rs a.1)

    due-IsMine : (now : Instant) (t : Store) → All IsMine (Repository.due_schedules context now t)
    unfolding Repository.due_schedules
    due-IsMine now t = All-take 100 _ (
        All-order_by IsMine schedule_order _ (
          All-mono (λ r. is_due context now r ≡ true) IsMine _ (λ r e. ground arith)
            (All-select_test (is_due context now) t.schedules)))

    pub dispatch_due_schedules-Holds :
        (now : Instant) → Post (Holds context s) Any (dispatch_due_schedules context now)
    unfolding dispatch_due_schedules
    dispatch_due_schedules-Holds now = bind (authorized-Post context s _) λ _ _.
        bind (reading {Q = All IsMine} _ (λ t h. due-IsMine now t))
          λ rows mine. dispatch_schedules-Holds rows now mine
