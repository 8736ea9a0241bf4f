-- ===== src/Jobs/Lease.antt =====
-- What it is to hold the lease of a job, told without the checks of `_leased_job` of
-- app/jobs/service.py.
use wanderra_os.Base.{◌<◌, ◌≡◌, refl, Bool-cases, true, false, Option, none, some, arith, inl, inr}
use wanderra_os.Base.Text.{Text, text_eq_refl, text_eq-eq}
use wanderra_os.Jobs.Contracts.{Instant, JobStatus}
use wanderra_os.Jobs.Models.{JobInstance}
use wanderra_os.Jobs.Repository.{is_running}
use wanderra_os.Jobs.Service.Guards.{owns, is_live, holds_lease}

-- The job runs, the worker is the owner of its lease, and the lease expires behind the instant.
pub record HoldsLease (r : JobInstance) (worker : Text) (now : Instant) : Type 0 where
  pub running : r.status ≡ JobStatus.running
  pub owner : r.lease_owner ≡ some worker
  pub expiry : Instant
  pub expires : r.lease_expires_at ≡ some expiry
  pub live : now < expiry

running-only : (x : JobStatus) → is_running x ≡ true → x ≡ JobStatus.running
running-only JobStatus.running h = refl
running-only JobStatus.queued h = absurd (cc)
running-only JobStatus.retry_wait h = absurd (cc)
running-only JobStatus.succeeded h = absurd (cc)
running-only JobStatus.cancelled h = absurd (cc)
running-only JobStatus.dead_lettered h = absurd (cc)
running-only JobStatus.expired h = absurd (cc)

owns-only : (o : Option Text) (worker : Text) → owns o worker ≡ true → o ≡ some worker
owns-only none worker h = absurd (cc)
owns-only (some owner) worker h = rw (text_eq-eq owner worker h) refl

live-only :
    (o : Option Instant) (now : Instant)
    → is_live o now ≡ true
    → (t : Instant) × (o ≡ some t) × (now < t)
live-only none now h = absurd (cc)
live-only (some t) now h = (t, refl, ground (arith, h))

pub holds_lease→HoldsLease :
    (r : JobInstance) (worker : Text) (now : Instant)
    → holds_lease r worker now ≡ true
    → HoldsLease r worker now
unfolding holds_lease
holds_lease→HoldsLease r worker now h =
    let (t, expires, live) = live-only r.lease_expires_at now (ground (arith, h)) in
    record {
      running = running-only r.status (ground (arith, h));
      owner = owns-only r.lease_owner worker (ground (arith, h));
      expiry = t;
      expires = expires;
      live = live;
    }

pub HoldsLease→holds_lease :
    (r : JobInstance) (worker : Text) (now : Instant)
    → HoldsLease r worker now
    → holds_lease r worker now ≡ true
unfolding holds_lease
HoldsLease→holds_lease r worker now h =
    let live = h.live in
    let running = h.running in
    let owner = h.owner in
    let expires = h.expires in
    let same = text_eq_refl worker in ground (arith, live, running, owner, expires, same)

pub HoldsLease-none :
    (r : JobInstance) (worker : Text) (now : Instant)
    → (¬ HoldsLease r worker now)
    → holds_lease r worker now ≡ false
HoldsLease-none r worker now lacks = elim (Bool-cases (holds_lease r worker now)) [
  | inl held ↦ absurd (lacks (holds_lease→HoldsLease r worker now held))
  | inr free ↦ free
]
