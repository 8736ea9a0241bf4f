-- ===== src/Tasks/Locked.antt =====
-- `_locked` of app/tasks/service.py: what it establishes of the task, and what it refuses.
use wanderra_os.Base.{
  false, ◌&&◌, if◌then◌else◌, Bool-cases, inl, inr, ℕ, ◌≡◌, ◌≢◌, refl, sym, ap, subst, ◌∙◌, true,
  false, not, Option, some, ◌==◌, arith,
}
use wanderra_os.Base.Table.{find-test}
use wanderra_os.Base.Text.{Text}
use wanderra_os.Base.Result.{ok, err}
use wanderra_os.Base.Action.{
  ◌>>=◌, bind-err, guard-inv, lift-inv, some-inv, pure-inv, gets-pass, guard-pass,
}
use wanderra_os.Tasks.Contracts.{
  TaskStatus, require_task_version, version_stale, participant_invalid,
}
use wanderra_os.Tasks.Models.{ParticipantKind, Task, TaskStore, TaskContext, TaskPermission}
use wanderra_os.Tasks.Repository
use wanderra_os.Tasks.Repository.{is_task}
use wanderra_os.Tasks.Guards.{locked, require, is_deleted_status}
use wanderra_os.Tasks.Service.{transition, permission_for}
use wanderra_os.Tasks.Details.{
  add_participant, is_known_kind, add_dependency, add_comment, add_completion_evidence,
  link_external, schedule_reminder,
}

module _ (context : TaskContext) where
  pub record IsLocked (id expected : ℕ) (s : TaskStore) (r : Task) : Type 0 where
    pub row : Repository.task context id s ≡ some r
    pub same_id : r.id ≡ id
    pub same_version : r.version ≡ expected
    pub present : is_deleted_status r.status ≡ false

  pub locked-inv :
      (id expected : ℕ) (s : TaskStore) {r : Task} {t : TaskStore}
      → locked context id expected s ≡ (ok r, t)
      → (s ≡ t) × IsLocked id expected s r
  unfolding locked Repository.task require_task_version
  locked-inv id expected s {r} {t} e =
      let (x, found, e1) = some-inv _ _ _ s (sym (gets-pass _ _ s) ∙ e) in
      let (u, fresh, e2) = lift-inv _ _ s e1 in
      let (present, e3) = guard-inv _ _ _ s e2 in
      let (same, here) = pure-inv _ s e3 in
      let test = find-test (is_task context id) s.tasks found in
      (
        here,
        subst (IsLocked id expected s) same (record {
          row = found;
          same_id = ground (arith, test);
          same_version = ground (arith, fresh);
          present = present;
        }),
      )

  locked-stale :
      (id expected : ℕ) (s : TaskStore) (r : Task)
      → Repository.task context id s ≡ some r
      → r.version ≢ expected
      → locked context id expected s ≡ (err version_stale, s)
  unfolding locked require_task_version ◌>>=◌
  locked-stale id expected s r found stale =
      let differs : r.version == expected ≡ false = ground (arith, stale) in
      rw (found, differs) refl

  add_participant-stale :
      (id expected : ℕ) (s : TaskStore) (other : ℕ) (kind : ParticipantKind)
      → context.authorize TaskPermission.update_content ≡ true
      → locked context id expected s ≡ (err version_stale, s)
      → add_participant context id other kind expected s ≡ (
        err (
            if is_known_kind kind && Repository.active_member context other s
            then version_stale
            else participant_invalid),
        s,
      )
  unfolding add_participant require ◌>>=◌
  add_participant-stale id expected s other kind allowed refused =
      rw allowed (elim (Bool-cases (is_known_kind kind)) [
        | inr odd ↦ rw odd refl
        | inl known ↦ elim (Bool-cases (Repository.active_member context other s)) [
          | inr gone ↦ rw (known, gone) refl
          | inl here ↦ rw (known, here, refused) refl
        ]
      ])

  -- If an authorized caller names a version of a task other than the stored one, then each of the
  -- seven methods that change the task behind `_locked` raises, and nothing in the store changes.
  -- They raise `TaskConcurrencyError`, but that `add_participant` raises `TaskError` where the kind
  -- is unknown or the user is no active member, which it asks first.
  pub stale_version_refused :
      (id expected : ℕ) (s : TaskStore) (r : Task) (target : TaskStatus) (now : Option ℕ)
      (other : ℕ) (kind : ParticipantKind) (text second : Text) (resource supersedes : Option ℕ)
      (version : Option Text)
      → ((p : TaskPermission) → context.authorize p ≡ true)
      → Repository.task context id s ≡ some r
      → r.version ≢ expected
      → (transition context id target expected now s ≡ (err version_stale, s))
        × (add_participant context id other kind expected s ≡ (
          err (
              if is_known_kind kind && Repository.active_member context other s
              then version_stale
              else participant_invalid),
          s,
        ))
        × (add_dependency context id other expected s ≡ (err version_stale, s))
        × (add_comment context id other text expected s ≡ (err version_stale, s))
        × (add_completion_evidence context id other text expected resource supersedes s
            ≡ (err version_stale, s))
        × (link_external context id other text second expected version s ≡ (err version_stale, s))
        × (schedule_reminder context id other expected s ≡ (err version_stale, s))
  unfolding transition add_dependency add_comment add_completion_evidence link_external
      schedule_reminder require
  stale_version_refused id expected s r target now other kind text second resource supersedes
        version allowed found stale =
      let refused = locked-stale id expected s r found stale in
      let pass = λ (p : TaskPermission). ap not (allowed p) in
      (
        guard-pass _ _ _ s (pass (permission_for target)) ∙ bind-err _ _ refused,
        add_participant-stale id expected s other kind (allowed TaskPermission.update_content)
            refused,
        guard-pass _ _ _ s (pass TaskPermission.update_content) ∙ bind-err _ _ refused,
        guard-pass _ _ _ s (pass TaskPermission.update_content) ∙ bind-err _ _ refused,
        guard-pass _ _ _ s (pass TaskPermission.update_content) ∙ bind-err _ _ refused,
        guard-pass _ _ _ s (pass TaskPermission.update_content) ∙ bind-err _ _ refused,
        guard-pass _ _ _ s (pass TaskPermission.update_content) ∙ bind-err _ _ refused,
      )
