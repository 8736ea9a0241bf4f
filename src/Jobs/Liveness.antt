-- ===== src/Jobs/Liveness.antt =====
-- `claim_candidate` of app/jobs/repository.py: when it finds a job.
use wanderra_os.Base.{
  ℕ, zero, suc, ◌<◌, ◌≡◌, refl, Bool, true, false, some, List, [], ◌∷◌, get_elem?, leb, is_some,
  arith, All, Bool-cases, Option-cases, inl, inr,
}
use wanderra_os.Base.Table.{find, find-test, select, order_by, insert_by}
use wanderra_os.Jobs.Contracts.{Instant}
use wanderra_os.Jobs.Models.{JobDefinition, JobInstance, Store, Context}
use wanderra_os.Jobs.Repository.{
  first, is_claimable, joins, joined, within_limits, claim_order, claim_head, claim_candidate,
  workspace_paused, running_count,
}
use wanderra_os.Jobs.Claimable.{
  Serves, HasRoom, IsClaimable, IsClaimable→claimable, HasRoom→within, joins→Serves, find-position,
}
use wanderra_os.Jobs.Claims.{claim_head-claimable}

module _ {ℓ} {A : Type ℓ} where
  insert_by-first :
      (le : A → A → Bool) (a : A) (bs : List A) → (x : A) × (first (insert_by le a bs) ≡ some x)
  unfolding insert_by
  insert_by-first le a [] = (a, refl)
  insert_by-first le a (b ∷ bs) = elim (Bool-cases (le a b)) [
    | inl e ↦ (a, rw e refl)
    | inr e ↦ (b, rw e refl)
  ]

  -- A query that a row satisfies returns a first row.
  select-first :
      (le : A → A → Bool) (p : A → Bool) (rs : List A) (i : ℕ) (r : A)
      → get_elem? rs i ≡ some r
      → p r ≡ true
      → (x : A) × (first (order_by le (select p rs)) ≡ some x)
  unfolding order_by select
  select-first le p [] i r at hit = absurd (cc)
  select-first le p (y ∷ rs) zero r at hit =
      let same : y ≡ r = cc in
      let (x, e) = insert_by-first le r (order_by le (select p rs)) in (x, rw (same, hit) e)
  select-first le p (y ∷ rs) (suc i) r at hit = elim (Bool-cases (p y)) [
    | inl e ↦ let (x, q) = insert_by-first le y (order_by le (select p rs)) in (x, rw e q)
    | inr e ↦ let (x, q) = select-first le p rs i r at hit in (x, rw e q)
  ]

All-true {ℓ} : {A : Type ℓ} (rs : List A) → All (λ _. Unit {0}) rs
All-true [] = tt
All-true (r ∷ rs) = (tt, All-true rs)

joined-room :
    (context : Context) (now : Instant) (s : Store) (x : JobInstance)
    → is_some (find (joins context s x) s.definitions) ≡ true
    → ((d : JobDefinition)
        → find (joins context s x) s.definitions ≡ some d
        → within_limits context now s x d ≡ true)
    → (d : JobDefinition) × (joined context now s x (find (joins context s x) s.definitions)
        ≡ some (x, d))
unfolding joined
joined-room context now s x there room =
    elim (Option-cases (find (joins context s x) s.definitions)) [
      | inl nothing ↦ absurd (let bad = rw nothing at there in cc)
      | inr (d, found) ↦ (d, rw found (rw (room d found) refl))
    ]

-- If the workspace is not paused and runs fewer than 20 jobs, some job of the table is claimable, and
-- every stored definition that serves a job runs fewer jobs than its `max_concurrency` and began
-- fewer attempts in the last minute than its rate limit, then `claim_candidate` returns a job. A
-- job is claimable if it is the workspace's, is queued or waits for a retry, is available and
-- before its deadline, and not held by another transaction, and if the definition that it names is
-- stored, active and not paused.
pub claim_candidate-returns :
    (context : Context) (now : Instant) (s : Store) (i : ℕ) (r : JobInstance)
    → workspace_paused context s ≡ false
    → running_count context s < 20
    → get_elem? s.jobs i ≡ some r
    → IsClaimable context now s r
    → ((j : ℕ) (x : JobInstance) (d : JobDefinition)
        → get_elem? s.definitions j ≡ some d
        → Serves context s x d
        → HasRoom context now s d)
    → (x : JobInstance) × (d : JobDefinition) × (claim_candidate context now s ≡ some (x, d))
unfolding claim_candidate claim_head is_claimable
claim_candidate-returns context now s i r active few at hit room =
    let (x, head) =
      select-first claim_order (is_claimable context now s) s.jobs i r at
        (IsClaimable→claimable context now s r hit) in
    let claimable = (claim_head-claimable context now s (λ _. Unit {0}) (All-true s.jobs) head).1 in
    let leaves : (d : JobDefinition)
        → find (joins context s x) s.definitions ≡ some d
        → within_limits context now s x d ≡ true =
      λ d e.
        let (j, stored) = find-position (joins context s x) s.definitions e in
        HasRoom→within context now s x d (
          room j x d stored
            (joins→Serves context now s x d (find-test (joins context s x) s.definitions e))) in
    let (d, pair) = joined-room context now s x (ground (arith, claimable)) leaves in
    let below : leb 20 (running_count context s) ≡ false = ground (arith, few) in
    (x, d, rw (active, below) (rw head pair))
