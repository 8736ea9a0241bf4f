-- ===== src/Jobs/Retry.antt =====
-- What the retry decision of app/jobs/contracts.py guarantees under an accepted policy.
use wanderra_os.Base.{
  ℕ, zero, suc, ◌+◌, ◌-◌, ◌≤◌, ◌<◌, ◌≡◌, refl, true, false, not, ◌||◌, none, some, List, [], ◌∷◌,
  All, any, length, get_elem?, ltb, leb, arith, Bool-cases, inl, inr, ◌⊎◌,
}
use wanderra_os.Base.Result.{ok}
use wanderra_os.Jobs.Contracts.{
  Instant, seconds, FailureCategory, JobStatus, RetryPolicy, RetryDecision, retry_policy, delay_of,
  decide_retry, is_retryable, give_up,
}

-- A retry policy that `RetryPolicy` accepts.
abbrev pub IsPolicy : ℕ → List ℕ → Type 0
IsPolicy max_attempts delays =
    (1 ≤ max_attempts)
    × (max_attempts ≤ 5)
    × (max_attempts ≤ length delays + 1)
    × All (λ d. (1 ≤ d) × (d ≤ 120)) delays

delays-bounded :
    (delays : List ℕ)
    → any (λ delay. leb delay 0 || ltb 120 delay) delays ≡ false
    → All (λ d. (1 ≤ d) × (d ≤ 120)) delays
delays-bounded [] h = tt
delays-bounded (d ∷ ds) h = ground (arith, delays-bounded ds)

pub retry_policy-IsPolicy :
    (m : ℕ) (ds : List ℕ) {p : RetryPolicy}
    → retry_policy m ds ≡ ok p
    → (p ≡ record { max_attempts = m; delays = ds }) × IsPolicy m ds
unfolding retry_policy
retry_policy-IsPolicy m ds h = ground (arith, delays-bounded ds)

pub get_elem?-bounded :
    (ds : List ℕ) (i : ℕ)
    → All (λ d. (1 ≤ d) × (d ≤ 120)) ds
    → i < length ds
    → (d : ℕ) × (get_elem? ds i ≡ some d) × (1 ≤ d) × (d ≤ 120)
get_elem?-bounded [] i a h = absurd (omega arith)
get_elem?-bounded (d ∷ ds) zero a h = (d, refl, a.0.0, a.0.1)
get_elem?-bounded (d ∷ ds) (suc i) a h = get_elem?-bounded ds i a.1 (omega arith)

-- The decision of a valid policy on an attempt that was made.
abbrev pub Sound : RetryPolicy → FailureCategory → ℕ → Instant → Instant → RetryDecision → Type 0
Sound policy category n now deadline_at d =
    ((d.retry ≡ true)
      → (t : Instant) × (d.retry_at ≡ some t)
        × (d.terminal_status ≡ none)
        × (now < t)
        × (t ≤ now + seconds 120)
        × (t < deadline_at)
        × (n < policy.max_attempts)
        × (is_retryable category ≡ true))
    × ((d.retry ≡ false)
        → (d.retry_at ≡ none)
          × ((d.terminal_status ≡ some JobStatus.dead_lettered)
              ⊎ (d.terminal_status ≡ some JobStatus.expired)))

-- Under a policy that `RetryPolicy` accepts, and for an attempt number of at least 1, the decision
-- never raises. If it is to retry, the time is after now by at most 120 seconds and before the
-- deadline, attempts are left and the category is retryable; if not, there is no time, and the
-- terminal status is dead-lettered or expired.
pub decide_retry-Sound :
    (policy : RetryPolicy) (category : FailureCategory) (n : ℕ) (now deadline_at : Instant)
    → IsPolicy policy.max_attempts policy.delays
    → 1 ≤ n
    → (d : RetryDecision) × (decide_retry policy category n now deadline_at ≡ ok d)
      × Sound policy category n now deadline_at d
unfolding decide_retry delay_of
decide_retry-Sound policy category n now deadline_at v h =
    elim (Bool-cases (not (is_retryable category) || leb policy.max_attempts n)) [
      | inl stop ↦ (give_up JobStatus.dead_lettered, ground arith, ground arith)
      | inr go ↦
          let below : n - 1 < length policy.delays = ground arith in
          let (x, found, low, high) = get_elem?-bounded policy.delays (n - 1) v.3 below in
          elim (Bool-cases (leb deadline_at (now + seconds x))) [
            | inl late ↦ (give_up JobStatus.expired, ground arith, ground arith)
            | inr soon ↦ (
              record { retry = true; retry_at = some (now + seconds x); terminal_status = none },
              ground arith,
              (
                (λ _. (
                  now + seconds x,
                  refl,
                  refl,
                  omega arith,
                  omega arith,
                  ground arith,
                  ground arith,
                  ground arith,
                )),
                λ e. absurd (cc),
              ),
            )
          ]
    ]
