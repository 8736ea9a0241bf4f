-- ===== src/Jobs/Ownership.antt =====
-- `claim_next` of app/jobs/service.py: whose lease the claimed job carries.
use wanderra_os.Base.{
  ℕ, ◌+◌, ◌<◌, ◌≡◌, ◌↔◌, refl, sym, ap, subst, ◌∙◌, true, some, none, Option, is_some, arith,
  Option-cases, inl, inr,
}
use wanderra_os.Base.Text.{Text, strip}
use wanderra_os.Base.Table.{find, update, find-update_self}
use wanderra_os.Base.Result.{ok}
use wanderra_os.Base.Action.{modify, pure, bind-inv, guard-inv, gets-pass, pure-inv}
use wanderra_os.Jobs.Contracts.{Instant, seconds}
use wanderra_os.Jobs.Models.{JobDefinition, JobInstance, JobAttempt, Store, Context}
use wanderra_os.Jobs.Session.{save_job, add_attempt, new_id}
use wanderra_os.Jobs.Events.{record_event-inv}
use wanderra_os.Jobs.Repository
use wanderra_os.Jobs.Repository.{is_mine, is_job, is_claimable, claim_candidate}
use wanderra_os.Jobs.Claimable.{All-positions, position-find}
use wanderra_os.Jobs.Claims.{claim_head-claimable, claim_candidate-inv}
use wanderra_os.Jobs.Lease.{HoldsLease}
use wanderra_os.Jobs.Service.Guards.{require_authorized}
use wanderra_os.Jobs.Service.Lifecycle.{
  JobLease, job_lease, claimed, claim_row, claim_found, claim_next, recover_expired, expire_waiting,
}

add_attempt-jobs :
    (context : Context) (r : JobAttempt) (s : Store) {x : Unit {0}} {t : Store}
    → add_attempt context r s ≡ (ok x, t)
    → s.jobs ≡ t.jobs
unfolding add_attempt modify
add_attempt-jobs context r s e =
    let (_, g1) = guard-inv _ _ _ s e in
    let (_, g2) = guard-inv _ _ _ s g1 in
    let (_, g3) = guard-inv _ _ _ s g2 in
    let (written, e1) = guard-inv _ _ _ s (sym (gets-pass _ _ s) ∙ g3) in ap (λ x. x.1.jobs) e1

module _ (context : Context) where
  -- A row that is chosen can be found again by its identifier.
  candidate-found :
      (now : Instant) (s : Store) {r : JobInstance} {d : JobDefinition}
      → claim_candidate context now s ≡ some (r, d)
      → (y : JobInstance) × (find (is_job context r.id) s.jobs ≡ some y)
        × (is_mine context r.tenant ≡ true)
  unfolding is_claimable
  candidate-found now s {r} e =
      let head = (claim_candidate-inv context now s e).0 in
      let Found : JobInstance → Type 0 =
        λ x. is_mine context x.tenant ≡ true → is_some (find (is_job context x.id) s.jobs) ≡ true in
      let (there, claimable) =
        claim_head-claimable context now s Found
          (All-positions Found s.jobs
            (λ i x at mine. position-find (is_job context x.id) s.jobs i at (ground (arith, mine))))
          head in
      let mine : is_mine context r.tenant ≡ true = ground (arith, claimable) in
      elim (Option-cases (find (is_job context r.id) s.jobs)) [
        | inl nothing ↦ absurd (let bad = rw nothing at there mine in cc)
        | inr (y, found) ↦ (y, found, mine)
      ]

  claim_row-jobs :
      (r : JobInstance) (d : JobDefinition) (worker : Text) (now : Instant) (s : Store)
      {lease : JobLease} {t : Store}
      → claim_row context r d worker now s ≡ (ok lease, t)
      → (job_lease (claimed r worker now) d ≡ lease)
        × (t.jobs ≡ update (is_job context r.id) (λ _. claimed r worker now) s.jobs)
  unfolding claim_row save_job new_id modify
  claim_row-jobs r d worker now s {lease} {t} e =
      let (_, s1, saved, e1) = bind-inv (save_job context (claimed r worker now)) _ s e in
      let (id, s2, drawn, e2) = bind-inv (new_id context) _ s1 e1 in
      let (_, s3, added, e3) = bind-inv _ _ s2 e2 in
      let (_, s4, recorded, e4) = bind-inv _ _ s3 e3 in
      let (same, here) = pure-inv _ s4 e4 in
      let told = record_event-inv context _ _ _ _ _ s3 recorded in
      (
        same,
        sym (
            ap (λ x. x.1.jobs) saved
            ∙ ap (λ x. x.1.jobs) drawn
            ∙ add_attempt-jobs context _ s2 added
            ∙ ap (λ (x : Store). x.jobs) told
            ∙ ap (λ (x : Store). x.jobs) here),
      )

  claim_found-jobs :
      (o : Option (JobInstance × JobDefinition)) (worker : Text) (now : Instant) (s : Store)
      {lease : JobLease} {t : Store}
      → claim_candidate context now s ≡ o
      → claim_found context o worker now s ≡ (ok (some lease), t)
      → (r : JobInstance) × (Repository.job context lease.job_id t ≡ some (claimed r worker now))
  unfolding claim_found Repository.job pure claimed job_lease
  claim_found-jobs none worker now s chosen e = absurd (cc)
  claim_found-jobs (some (r, d)) worker now s {lease} {t} chosen e =
      let (given, u, claims, e1) = bind-inv (claim_row context r d worker now) _ s e in
      let (same, here) = pure-inv _ u e1 in
      let (lease_of, jobs) = claim_row-jobs r d worker now s claims in
      let (y, found, mine) = candidate-found now s chosen in
      let hit : is_job context r.id (claimed r worker now) ≡ true = ground (arith, mine) in
      let stored = find-update_self (is_job context r.id) (claimed r worker now) s.jobs found hit in
      let same_lease : given ≡ lease = cc in
      let named : lease.job_id ≡ r.id =
        sym (ap (λ (l : JobLease). l.job_id) (lease_of ∙ same_lease)) in
      let rows = sym (ap (λ (x : Store). x.jobs) here) ∙ jobs in
      (
        r,
        subst (λ i. find (is_job context i) t.jobs ≡ some (claimed r worker now)) (sym named)
            (subst (λ js. find (is_job context r.id) js ≡ some (claimed r worker now)) (sym rows)
              stored),
      )

-- If `claim_next` gives a worker a lease, then the job of the lease is stored, and a later call by
-- the identity `other` finds that it holds the lease exactly if `other` is the worker's identity
-- without the blanks around it, and less than 30 seconds have passed since the claim. So a worker
-- whose identity has blanks around it does not hold the lease that it was given.
pub claim_next-HoldsLease :
    (context : Context) (worker other : Text) (now later : Instant) (duration : ℕ) (s : Store)
    {lease : JobLease} {t : Store}
    → claim_next context worker now duration s ≡ (ok (some lease), t)
    → (r : JobInstance) × (Repository.job context lease.job_id t ≡ some r)
      × (HoldsLease r other later ↔ ((other ≡ strip worker) × (later < now + seconds 30)))
unfolding claim_next require_authorized claimed
claim_next-HoldsLease context worker other now later duration s e =
    let (_, e1) = guard-inv _ _ _ s e in
    let (_, e2) = guard-inv _ _ _ s e1 in
    let (_, e3) = guard-inv _ _ _ s e2 in
    let (_, s1, recovered, e4) = bind-inv (recover_expired context now) _ s e3 in
    let (_, s2, expired, e5) = bind-inv (expire_waiting context now) _ s1 e4 in
    let (r, stored) =
      claim_found-jobs context (claim_candidate context now s2) (strip worker) now s2 refl
        (sym (gets-pass _ _ s2) ∙ e5) in
    (
      claimed r (strip worker) now,
      stored,
      (
        λ held.
            let owner = held.owner in
            let expires = held.expires in
            let live = held.live in
            let same : strip worker ≡ other = cc in
            let expiry : now + seconds 30 ≡ held.expiry = cc in
            (sym same, ground (arith, live, expiry)),
        λ (same, early). record {
          running = refl;
          owner = ap some (sym same);
          expiry = now + seconds 30;
          expires = refl;
          live = early;
        },
      ),
    )
