-- ===== src/Tasks/Transitions.antt =====
-- `transition` of app/tasks/service.py: when it returns, and what it leaves.
use wanderra_os.Base.{
  ℕ, ◌+◌, ◌≡◌, ◌≢◌, sym, ap, subst, ◌∙◌, Bool, true, false, ◌&&◌, Option, List, [], ◌∷◌, any, map,
  All, ◌==◌, arith, Bool-cases, inl, inr,
}
use wanderra_os.Base.Result.{Result, ok}
use wanderra_os.Base.Action.{◌>>=◌, modify, bind-inv, guard-inv, lift-inv, gets-pass}
use wanderra_os.Tasks.Contracts.{TaskFailure, TaskStatus, status_eq, transitions, transition_status}
use wanderra_os.Tasks.Models.{Task, TaskReminder, TaskEvent, TaskStore, TaskContext}
use wanderra_os.Tasks.Repository
use wanderra_os.Tasks.Repository.{
  in_workspace, is_scheduled, cancel_reminder, cancel_reminders, save_task, insert_outbox,
  outbox_taken,
}
use wanderra_os.Tasks.Guards.{
  require, is_completed_status, is_closed, changed, record_task, task_outbox,
}
use wanderra_os.Tasks.Locked.{IsLocked, locked-inv}
use wanderra_os.Tasks.Service.{transition, moved, close_reminders, now_or}

transition_status-allowed :
    (current target : TaskStatus) {x : TaskStatus}
    → transition_status current target ≡ ok x
    → any (status_eq target) (transitions current) ≡ true
unfolding transition_status transitions
transition_status-allowed current target e = ground arith

evidence-needed :
    (target : TaskStatus) (required : Bool) (n : ℕ)
    → target ≡ TaskStatus.completed
    → required ≡ true
    → is_completed_status target && required && (n == 0) ≡ false
    → n ≢ 0
evidence-needed target required n done needs free nothing =
    let left : n == 0 ≡ false = rw (done, needs) at free in ground arith

module _ (context : TaskContext) where
  -- A reminder of the task that is still to be sent.
  abbrev pub is_pending : ℕ → TaskReminder → Bool
  is_pending id m =
      in_workspace context m.tenant.workspace_id && (m.task_id == id) && is_scheduled m.status

  none_pending :
      (id : ℕ) (ms : List TaskReminder)
      → All (λ m. is_pending id m ≡ false) (map (cancel_reminder context id) ms)
  none_pending id [] = tt
  none_pending id (m ∷ ms) = (
    elim (Bool-cases (is_pending id m)) [
      | inl pending ↦ rw pending (ground arith)
      | inr free ↦ rw free free
    ],
    none_pending id ms,
  )

  -- A transition from the store `s`, which returned the task `r` and the store `t`.
  pub record Transitioned (id : ℕ) (target : TaskStatus) (expected : ℕ) (s : TaskStore) (r : Task)
      (t : TaskStore) : Type 0 where
    pub before : Task
    pub locked : IsLocked context id expected s before
    pub allowed : any (status_eq target) (transitions before.status) ≡ true
    pub proved :
        target ≡ TaskStatus.completed
        → before.completion_evidence_required ≡ true
        → Repository.evidence_count context id s ≢ 0
    pub reached : r.status ≡ target
    pub next : r.version ≡ expected + 1
    pub silent : is_closed target ≡ true → All (λ m. is_pending id m ≡ false) t.reminders

  close_reminders-silent :
      (id : ℕ) (r : Task) (s : TaskStore) {t : TaskStore}
      → r.id ≡ id
      → close_reminders context r s ≡ (ok tt, t)
      → is_closed r.status ≡ true
      → All (λ m. is_pending id m ≡ false) t.reminders
  unfolding close_reminders cancel_reminders modify
  close_reminders-silent id r s {t} same e closes =
      let cancels : cancel_reminders context r.id s ≡ (ok tt, t) = rw closes at e in
      subst (All (λ m. is_pending id m ≡ false))
        (ap (λ (p : Result TaskFailure (Unit {0}) × TaskStore). p.1.reminders) cancels)
        (subst
          (λ i. All (λ m. is_pending id m ≡ false) (map (cancel_reminder context i) s.reminders))
          (sym same) (none_pending id s.reminders))

  changed-inv :
      (r : Task) (event : TaskEvent) (now : ℕ) (s : TaskStore) {x : Task} {t : TaskStore}
      → changed context r event now s ≡ (ok x, t)
      → (x.status ≡ r.status) × (x.version ≡ r.version + 1) × (t.reminders ≡ s.reminders)
  unfolding changed record_task save_task insert_outbox ◌>>=◌
  changed-inv r event now s {x} {t} e =
      let row =
        task_outbox context (record r { version = r.version + 1; updated_at = now }) event now in
      elim (Bool-cases (outbox_taken row s.outbox)) [
        | inl taken ↦ absurd (let bad = rw taken at e in cc)
        | inr free ↦
            let done = rw free at e in
            let same = ap (λ (p : Result TaskFailure Task × TaskStore). p.0) done in
            let kept = ap (λ (p : Result TaskFailure Task × TaskStore). p.1.reminders) done in
            (ground (arith, same), ground (arith, same), sym kept)
      ]

  -- If `transition` returns, then the task had the expected version and was not deleted, the table
  -- of transitions allows the step from its status, evidence was there if the task requires it and
  -- was completed, the returned task has the target status and the next version, and if the target
  -- closes the task then none of its reminders is scheduled any more.
  pub transition-Transitioned :
      (id : ℕ) (target : TaskStatus) (expected : ℕ) (now : Option ℕ) (s : TaskStore) {r : Task}
      {t : TaskStore}
      → transition context id target expected now s ≡ (ok r, t)
      → Transitioned id target expected s r t
  unfolding transition require moved
  transition-Transitioned id target expected now s {r} {t} e =
      let (permitted, e1) = guard-inv _ _ _ s e in
      let (x, s1, l, e2) = bind-inv _ _ s e1 in
      let (status, legal, e3) = lift-inv _ _ s1 e2 in
      let (evidenced, e4) = guard-inv _ _ _ s1 (sym (gets-pass _ _ s1) ∙ e3) in
      let (u, s2, closed, e5) = bind-inv _ _ s1 e4 in
      let (start, row) = locked-inv context id expected s l in
      let (reached, next, kept) = changed-inv _ _ _ s2 e5 in
      record {
        before = x;
        locked = row;
        allowed = transition_status-allowed x.status target legal;
        proved = λ done required zero.
            evidence-needed target x.completion_evidence_required
              (Repository.evidence_count context x.id s1) done required evidenced
              (ap (λ i. Repository.evidence_count context i s1) row.same_id
                ∙ ap (Repository.evidence_count context id) (sym start)
                ∙ zero);
        reached = reached;
        next = ground (arith, next, row.same_version);
        silent = λ closes. subst (All (λ m. is_pending id m ≡ false)) (sym kept) (
            close_reminders-silent id (moved x target (now_or now context.clock)) s1 row.same_id
              closed closes);
      }
