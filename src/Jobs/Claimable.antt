-- ===== src/Jobs/Claimable.antt =====
-- The conditions of `claim_candidate` of app/jobs/repository.py, told without the query.
use wanderra_os.Base.{
  ℕ, zero, suc, ◌<◌, ◌≤◌, ◌≡◌, ◌⊎◌, refl, Bool, true, false, some, List, [], ◌∷◌, get_elem?,
  is_some, arith, All, Bool-cases, Option-cases, inl, inr,
}
use wanderra_os.Base.Table.{find, find-test, select}
use wanderra_os.Jobs.Contracts.{Instant, JobStatus}
use wanderra_os.Jobs.Models.{DefinitionStatus, JobDefinition, JobInstance, Store, Context}
use wanderra_os.Jobs.Repository.{
  is_waiting, is_active, is_claimable, joins, within_limits, claim_order, definition_paused,
  definition_running_count, recent_attempt_count,
}

-- The definition is the one that the job's row names, active and not paused.
pub record Serves (context : Context) (s : Store) (r : JobInstance) (d : JobDefinition)
    : Type 0 where
  pub organization : d.tenant.organization_id ≡ r.tenant.organization_id
  pub workspace : d.tenant.workspace_id ≡ r.tenant.workspace_id
  pub cell : d.tenant.cell_id ≡ r.tenant.cell_id
  pub named : d.id ≡ r.definition_id
  pub active : d.status ≡ DefinitionStatus.active
  pub unpaused : definition_paused context d.id s ≡ false

-- The definition's limits leave room for one more job.
pub record HasRoom (context : Context) (now : Instant) (s : Store) (d : JobDefinition)
    : Type 0 where
  pub running : definition_running_count context d.id s < d.max_concurrency
  pub recent : recent_attempt_count context d.id now s < d.rate_limit_per_minute

-- The job is the workspace's, waits, is available, has not reached its deadline, is not held by
-- another transaction, and a stored definition serves it.
pub record IsClaimable (context : Context) (now : Instant) (s : Store) (r : JobInstance)
    : Type 0 where
  pub own : r.tenant.workspace_id ≡ context.tenant.workspace_id
  pub waiting : (r.status ≡ JobStatus.queued) ⊎ (r.status ≡ JobStatus.retry_wait)
  pub available : r.available_at ≤ now
  pub alive : now < r.deadline
  pub unlocked : context.is_locked r.id ≡ false
  pub definition : JobDefinition
  pub position : ℕ
  pub stored : get_elem? s.definitions position ≡ some definition
  pub serves : Serves context s r definition

-- The order of availability, then of creation, then of the identifier.
pub record Precedes (a b : JobInstance) : Type 0 where
  pub by_availability : a.available_at ≤ b.available_at
  pub by_creation : a.available_at ≡ b.available_at → a.created_at ≤ b.created_at
  pub by_id : a.available_at ≡ b.available_at → a.created_at ≡ b.created_at → a.id ≤ b.id

pub claim_order-Precedes : (a b : JobInstance) → claim_order b a ≡ false → Precedes a b
claim_order-Precedes a b h = record {
  by_availability = ground arith;
  by_creation = λ same. ground arith;
  by_id = λ same same'. ground arith;
}

module _ {ℓ} {A : Type ℓ} where
  pub find-position :
      (p : A → Bool) (rs : List A) {r : A}
      → find p rs ≡ some r
      → (i : ℕ) × (get_elem? rs i ≡ some r)
  unfolding find
  find-position p [] e = absurd (cc)
  find-position p (x ∷ rs) e = elim (Bool-cases (p x)) [
    | inl hit ↦ (0, rw hit at e)
    | inr miss ↦ let (i, at) = find-position p rs (rw miss at e) in (suc i, at)
  ]

  pub position-find :
      (p : A → Bool) (rs : List A) (i : ℕ) {r : A}
      → get_elem? rs i ≡ some r
      → p r ≡ true
      → is_some (find p rs) ≡ true
  unfolding find
  position-find p [] i at hit = absurd (cc)
  position-find p (x ∷ rs) zero {r} at hit = (let same : x ≡ r = cc in rw (same, hit) refl)
  position-find p (x ∷ rs) (suc i) at hit = elim (Bool-cases (p x)) [
    | inl e ↦ rw e refl
    | inr e ↦ rw e (position-find p rs i at hit)
  ]

  pub All-unselect {κ} :
      (P : A → Type κ) (p : A → Bool) (rs : List A)
      → All P (select p rs)
      → All (λ x. p x ≡ true → P x) rs
  unfolding select
  All-unselect P p [] a = tt
  All-unselect P p (x ∷ rs) a = elim (Bool-cases (p x)) [
    | inl e ↦ let (px, rest) = rw e at a in (λ _. px, All-unselect P p rs rest)
    | inr e ↦ let rest = rw e at a in (λ hit. absurd (cc), All-unselect P p rs rest)
  ]

-- A property of every position is one of every row.
pub All-positions {ℓ κ} :
    {A : Type ℓ} (P : A → Type κ) (rs : List A)
    → ((i : ℕ) (r : A) → get_elem? rs i ≡ some r → P r)
    → All P rs
All-positions P [] h = tt
All-positions P (r ∷ rs) h = (h 0 r refl, All-positions P rs (λ i x at. h (suc i) x at))

is_active-only : (d : DefinitionStatus) → is_active d ≡ true → d ≡ DefinitionStatus.active
is_active-only DefinitionStatus.active h = refl
is_active-only DefinitionStatus.paused h = absurd (cc)
is_active-only DefinitionStatus.retired h = absurd (cc)

waiting-only :
    (x : JobStatus) → is_waiting x ≡ true → (x ≡ JobStatus.queued) ⊎ (x ≡ JobStatus.retry_wait)
waiting-only JobStatus.queued h = inl refl
waiting-only JobStatus.retry_wait h = inr refl
waiting-only JobStatus.running h = absurd (cc)
waiting-only JobStatus.succeeded h = absurd (cc)
waiting-only JobStatus.cancelled h = absurd (cc)
waiting-only JobStatus.dead_lettered h = absurd (cc)
waiting-only JobStatus.expired h = absurd (cc)

module _ (context : Context) (now : Instant) (s : Store) where
  pub joins→Serves :
      (r : JobInstance) (d : JobDefinition) → joins context s r d ≡ true → Serves context s r d
  unfolding joins
  joins→Serves r d h = record {
    organization = ground (arith, h);
    workspace = ground (arith, h);
    cell = ground (arith, h);
    named = ground (arith, h);
    active = is_active-only d.status (ground (arith, h));
    unpaused = ground (arith, h);
  }

  pub Serves→joins :
      (r : JobInstance) (d : JobDefinition) → Serves context s r d → joins context s r d ≡ true
  unfolding joins
  Serves→joins r d h =
      let a = h.organization in
      let b = h.workspace in
      let c = h.cell in
      let e = h.named in
      let f : is_active d.status ≡ true = rw h.active refl in
      let g = h.unpaused in ground (arith, a, b, c, e, f, g)

  pub within→HasRoom :
      (r : JobInstance) (d : JobDefinition)
      → within_limits context now s r d ≡ true
      → HasRoom context now s d
  unfolding within_limits
  within→HasRoom r d h = record { running = ground (arith, h); recent = ground (arith, h) }

  pub HasRoom→within :
      (r : JobInstance) (d : JobDefinition)
      → HasRoom context now s d
      → within_limits context now s r d ≡ true
  unfolding within_limits
  HasRoom→within r d h = (let a = h.running in let b = h.recent in ground (arith, a, b))

  pub claimable→IsClaimable :
      (r : JobInstance) → is_claimable context now s r ≡ true → IsClaimable context now s r
  unfolding is_claimable
  claimable→IsClaimable r h = elim (Option-cases (find (joins context s r) s.definitions)) [
    | inl nothing ↦ absurd (ground (arith, h, nothing))
    | inr (d, found) ↦
        let (i, at) = find-position (joins context s r) s.definitions found in
        record {
          own = ground (arith, h);
          waiting = waiting-only r.status (ground (arith, h));
          available = ground (arith, h);
          alive = ground (arith, h);
          unlocked = ground (arith, h);
          definition = d;
          position = i;
          stored = at;
          serves = joins→Serves r d (find-test (joins context s r) s.definitions found);
        }
  ]

  pub IsClaimable→claimable :
      (r : JobInstance) → IsClaimable context now s r → is_claimable context now s r ≡ true
  unfolding is_claimable
  IsClaimable→claimable r h =
      let served =
        position-find (joins context s r) s.definitions h.position h.stored
          (Serves→joins r h.definition h.serves) in
      let waits : is_waiting r.status ≡ true = elim h.waiting [
        | inl e ↦ rw e refl
        | inr e ↦ rw e refl
      ] in
      let own = h.own in
      let available = h.available in
      let alive = h.alive in
      let unlocked = h.unlocked in ground (arith, served, waits, own, available, alive, unlocked)
