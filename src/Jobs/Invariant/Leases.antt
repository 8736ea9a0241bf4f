-- ===== src/Jobs/Invariant/Leases.antt =====
-- The methods that workers call keep what holds during a call: leases are recovered, waiting jobs
-- expire, and a job is claimed, kept alive, and ended.
use wanderra_os.Base.{
  ℕ, ◌≡◌, refl, Bool, true, not, ◌&&◌, Option, none, some, List, [], ◌∷◌, All, All-both, All-mono,
  arith,
}
use wanderra_os.Base.Text.{Text}
use wanderra_os.Base.Table.{select, All-select, All-select_test, All-order_by}
use wanderra_os.Base.Post.{Post, Any, bind, return, raising, guarding, reading}
use wanderra_os.Jobs.Contracts.{Instant, FailureCategory}
use wanderra_os.Jobs.Models.{JobDefinition, JobInstance, JobAttempt, Store, Context}
use wanderra_os.Jobs.Repository
use wanderra_os.Jobs.Repository.{
  is_mine, is_running, is_waiting, is_claimable, lease_order, is_past,
}
use wanderra_os.Jobs.Claims.{claim_head-claimable, claim_candidate-inv}
use wanderra_os.Jobs.Service.Lifecycle.{
  recover_lease, recover_leases, recover_expired, expire_row, expire_rows, expire_waiting, claimed,
  claim_row, claim_found, claim_next, observe_cancellation, extend_lease, beat, heartbeat, succeed,
  fail,
}
use wanderra_os.Jobs.Invariant.Rows.{JobIsValid, Holds}
use wanderra_os.Jobs.Invariant.Writes.{
  save_job-Holds, save_attempt-Holds, new_id-Holds, record_event-Holds, mine_own,
}
use wanderra_os.Jobs.Invariant.Inserts.{add_attempt-Holds}
use wanderra_os.Jobs.Invariant.Guards.{
  IsOwn, authorized-Post, leased_job-Holds, require_attempt-Holds, end_attempt-Holds,
}

module _ (context : Context) (s : Store) where
  abbrev IsOwnRunning : JobInstance → Type 0
  IsOwnRunning r = IsOwn context s r × (is_running r.status ≡ true)

  abbrev IsOwnWaiting : JobInstance → Type 0
  IsOwnWaiting r = IsOwn context s r × (is_waiting r.status ≡ true)

  -- The rows of a query whose test includes the two facts.
  selected :
      (Q : JobInstance → Type 0) (p : JobInstance → Bool) (rs : List JobInstance)
      → ((r : JobInstance) → JobIsValid s.definitions r → p r ≡ true → Q r)
      → All (JobIsValid s.definitions) rs
      → All Q (select p rs)
  selected Q p rs f a =
      All-mono (λ r. JobIsValid s.definitions r × (p r ≡ true)) Q (select p rs) (λ r h. f r h.0 h.1)
        (All-both (JobIsValid s.definitions) (λ r. p r ≡ true) (select p rs)
          (All-select (JobIsValid s.definitions) p rs a) (All-select_test p rs))

  recover_lease-Holds :
      (r : JobInstance) (now : Instant)
      → IsOwnRunning r
      → Post (Holds context s) Any (recover_lease context r now)
  unfolding recover_lease
  recover_lease-Holds r now own = bind (require_attempt-Holds context s r) λ attempt mine.
      bind (save_attempt-Holds context s _ mine)
        λ _ _. end_attempt-Holds context s r _ _ _ now own.0 own.1

  recover_leases-Holds :
      (rs : List JobInstance) (now : Instant)
      → All IsOwnRunning rs
      → Post (Holds context s) Any (recover_leases context rs now)
  unfolding recover_leases
  recover_leases-Holds [] now own = return _ tt
  recover_leases-Holds (r ∷ rs) now own =
      bind (recover_lease-Holds r now own.0) λ _ _. recover_leases-Holds rs now own.1

  recover_expired-Holds : (now : Instant) → Post (Holds context s) Any (recover_expired context now)
  unfolding recover_expired Repository.expired_leases
  recover_expired-Holds now =
      bind
        (reading {Q = All IsOwnRunning} _ (λ t h. All-order_by IsOwnRunning lease_order _ (
          selected IsOwnRunning
            (λ r.
              is_mine context r.tenant
              && is_running r.status
              && is_past r.lease_expires_at now
              && not (context.is_locked r.id))
            t.jobs (λ r v e. ((ground arith, v), ground arith)) h.valid)))
        λ rows own. recover_leases-Holds rows now own

  expire_row-Holds :
      (r : JobInstance) (now : Instant)
      → IsOwnWaiting r
      → Post (Holds context s) Any (expire_row context r now)
  unfolding expire_row
  expire_row-Holds r now own =
      let (own-mine, v) = own.0 in
      let waiting = own.1 in
      bind (save_job-Holds context s _ own-mine (ground arith))
        λ _ _. record_event-Holds context s _ _ _ _ _

  expire_rows-Holds :
      (rs : List JobInstance) (now : Instant)
      → All IsOwnWaiting rs
      → Post (Holds context s) Any (expire_rows context rs now)
  unfolding expire_rows
  expire_rows-Holds [] now own = return _ tt
  expire_rows-Holds (r ∷ rs) now own =
      bind (expire_row-Holds r now own.0) λ _ _. expire_rows-Holds rs now own.1

  expire_waiting-Holds : (now : Instant) → Post (Holds context s) Any (expire_waiting context now)
  unfolding expire_waiting Repository.expired_waiting
  expire_waiting-Holds now =
      bind
        (reading {Q = All IsOwnWaiting} _ (λ t h.
          selected IsOwnWaiting _ t.jobs (λ r v e. ((ground arith, v), ground arith)) h.valid))
        λ rows own. expire_rows-Holds rows now own

  claimed-IsValid :
      (r : JobInstance) (worker : Text) (now : Instant)
      → JobIsValid s.definitions r
      → is_waiting r.status ≡ true
      → JobIsValid s.definitions (claimed r worker now)
  unfolding claimed
  claimed-IsValid r worker now v waiting = ground arith

  claim_row-Holds :
      (r : JobInstance) (d : JobDefinition) (worker : Text) (now : Instant)
      → IsOwnWaiting r
      → Post (Holds context s) Any (claim_row context r d worker now)
  unfolding claim_row
  claim_row-Holds r d worker now own =
      bind (save_job-Holds context s _ own.0.0 (claimed-IsValid r worker now own.0.1 own.1)) λ _ _.
        bind (new_id-Holds context s) λ id _.
          bind (add_attempt-Holds context s _ (mine_own context))
            λ _ _. bind (record_event-Holds context s _ _ _ _ _) λ _ _. return _ tt

  claim_found-Holds :
      (o : Option (JobInstance × JobDefinition)) (worker : Text) (now : Instant)
      → ((r : JobInstance) (d : JobDefinition) → o ≡ some (r, d) → IsOwnWaiting r)
      → Post (Holds context s) Any (claim_found context o worker now)
  unfolding claim_found
  claim_found-Holds none worker now own = return _ tt
  claim_found-Holds (some (r, d)) worker now own =
      bind (claim_row-Holds r d worker now (own r d refl)) λ _ _. return _ tt

  candidate-IsOwn :
      (now : Instant) (t : Store) (r : JobInstance) (d : JobDefinition)
      → Holds context s t
      → Repository.claim_candidate context now t ≡ some (r, d)
      → IsOwnWaiting r
  unfolding is_claimable
  candidate-IsOwn now t r d h e =
      let head = (claim_candidate-inv context now t {r = r} {d = d} e).0 in
      let (v, claimable) =
        claim_head-claimable context now t (JobIsValid s.definitions) {r = r} h.valid head in
      ((ground arith, v), ground arith)

  pub claim_next-Holds :
      (worker : Text) (now : Instant) (duration : ℕ)
      → Post (Holds context s) Any (claim_next context worker now duration)
  unfolding claim_next
  claim_next-Holds worker now duration = bind (authorized-Post context s _) λ _ _.
      bind (guarding _ _) λ _ _. bind (guarding _ _) λ _ _. bind (recover_expired-Holds now) λ _ _.
        bind (expire_waiting-Holds now) λ _ _.
          bind
            (reading
              {Q = λ o. (r : JobInstance) (d : JobDefinition) → o ≡ some (r, d) → IsOwnWaiting r} _
              (λ t h r d e. candidate-IsOwn now t r d h e))
            λ candidate own. claim_found-Holds candidate _ now own

  observe_cancellation-Holds :
      (r : JobInstance) (attempt : JobAttempt) (now : Instant)
      → IsOwnRunning r
      → is_mine context attempt.tenant ≡ true
      → Post (Holds context s) Any (observe_cancellation context r attempt now)
  unfolding observe_cancellation
  observe_cancellation-Holds r attempt now own mine =
      let (own-mine, v) = own.0 in
      let running = own.1 in
      bind (save_attempt-Holds context s _ mine) λ _ _.
        bind (save_job-Holds context s _ own-mine (ground arith))
          λ _ _. bind (record_event-Holds context s _ _ _ _ _) λ _ _. raising _

  extend_lease-Holds :
      (r : JobInstance) (attempt : JobAttempt) (now : Instant)
      → IsOwnRunning r
      → is_mine context attempt.tenant ≡ true
      → Post (Holds context s) Any (extend_lease context r attempt now)
  unfolding extend_lease
  extend_lease-Holds r attempt now own mine =
      let (own-mine, v) = own.0 in
      let running = own.1 in
      bind (save_job-Holds context s _ own-mine (ground arith)) λ _ _.
        bind (save_attempt-Holds context s _ mine) λ _ _. record_event-Holds context s _ _ _ _ _

  beat-Holds :
      (r : JobInstance) (attempt : JobAttempt) (now : Instant) (o : Option Instant)
      → IsOwnRunning r
      → is_mine context attempt.tenant ≡ true
      → Post (Holds context s) Any (beat context r attempt now o)
  unfolding beat
  beat-Holds r attempt now none own mine = extend_lease-Holds r attempt now own mine
  beat-Holds r attempt now (some _) own mine = observe_cancellation-Holds r attempt now own mine

  pub heartbeat-Holds :
      (id : ℕ) (worker : Text) (now : Instant)
      → Post (Holds context s) Any (heartbeat context id worker now)
  unfolding heartbeat
  heartbeat-Holds id worker now = bind (leased_job-Holds context s id worker now) λ r own.
      bind (require_attempt-Holds context s r)
        λ attempt mine. beat-Holds r attempt now r.cancellation_requested_at own mine

  pub succeed-Holds :
      (id : ℕ) (worker result : Text) (now : Instant)
      → Post (Holds context s) Any (succeed context id worker result now)
  unfolding succeed
  succeed-Holds id worker result now = bind (guarding _ _) λ _ _.
      bind (leased_job-Holds context s id worker now) λ r own. bind (guarding _ _) λ _ _.
        bind (require_attempt-Holds context s r) λ attempt mine.
          bind (save_attempt-Holds context s _ mine) λ _ _.
            let (own-mine, v) = own.0 in
            let running = own.1 in
            bind (save_job-Holds context s _ own-mine (ground arith))
              λ _ _. bind (record_event-Holds context s _ _ _ _ _) λ _ _. return _ tt

  pub fail-Holds :
      (id : ℕ) (worker : Text) (category : FailureCategory) (code : Text) (now : Instant)
      → Post (Holds context s) Any (fail context id worker category code now)
  unfolding fail
  fail-Holds id worker category code now = bind (leased_job-Holds context s id worker now) λ r own.
      bind (require_attempt-Holds context s r) λ attempt mine. bind (guarding _ _) λ _ _.
        bind (save_attempt-Holds context s _ mine)
          λ _ _. end_attempt-Holds context s r category _ _ now own.0 own.1
