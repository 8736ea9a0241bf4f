-- ===== src/Jobs/Recurrence/Next.antt =====
-- `next_occurrence` of app/jobs/contracts.py: the instant that a schedule goes on to.
use wanderra_os.Base.{
  ℕ, zero, suc, ◌+◌, ◌-◌, ◌*◌, ◌/◌, ◌≤◌, ◌<◌, ◌≡◌, refl, sym, subst, true, false, Option, none,
  some, arith, ltb, Bool-cases, inl, inr,
}
use wanderra_os.Base.Result.{Result, ok}
use wanderra_os.Jobs.Contracts.{
  Instant, DateTime, Failure, ScheduleKind, once, interval, daily_local,
}
use wanderra_os.Jobs.Schedules.{
  DailySchedule, ScheduleSpec, schedule_spec, interval_bad, is_following, next_daily, next_interval,
  next_of_daily, next_of, next_occurrence, resolve_local,
}

-- The step of a validated interval schedule is at least a second.
abbrev pub IsSpec : ScheduleSpec → Type 0
IsSpec s = s.kind ≡ interval → (n : ℕ) × (s.interval_seconds ≡ some n) × (1 ≤ n)

step_positive : (o : Option ℕ) → interval_bad o ≡ false → (n : ℕ) × (o ≡ some n) × (1 ≤ n)
step_positive none h = absurd (cc)
step_positive (some n) h = (n, refl, ground arith)

pub schedule_spec-IsSpec :
    (s : ScheduleSpec) (first : DateTime) {v : ScheduleSpec}
    → schedule_spec s first ≡ ok v
    → IsSpec v
unfolding schedule_spec
schedule_spec-IsSpec s first {v} e is = step_positive v.interval_seconds (ground arith)

following :
    {first after t : Instant} (o : Option Instant)
    → is_following first after o ≡ true
    → ◌≡◌ {A = Result Failure (Option Instant)} (ok o) (ok (some t))
    → (first ≤ t) × (after < t)
following none hit e = absurd (cc)
following (some x) hit e = (ground arith, ground arith)

next_daily-following :
    (rounds : ℕ) (d : DailySchedule) (first after : Instant) (day : ℕ) {t : Instant}
    → next_daily rounds d first after day ≡ ok (some t)
    → (first ≤ t) × (after < t)
unfolding next_daily
next_daily-following zero d first after day e = absurd (cc)
next_daily-following (suc rounds) d first after day {t} e =
    elim (Bool-cases (is_following first after (resolve_local day d))) [
      | inl hit ↦ following (resolve_local day d) hit (rw hit at e)
      | inr miss ↦ next_daily-following rounds d first after (day + 1) (rw miss at e)
    ]

-- The whole steps of an interval that fit, and one more, pass every instant.
steps-pass :
    (elapsed step : ℕ) → 1 ≤ step → elapsed < (elapsed / 1000000 / step + 1) * step * 1000000
steps-pass elapsed step h = grind arith

steps-least :
    (elapsed step k : ℕ)
    → 1 ≤ step
    → elapsed < k * step * 1000000
    → elapsed / 1000000 / step + 1 ≤ k
steps-least elapsed step k h past = grind arith

next_interval-after :
    (first step after : ℕ) {t : Instant}
    → 1 ≤ step
    → next_interval first (some step) after ≡ ok (some t)
    → (first ≤ t) × (after < t)
unfolding next_interval
next_interval-after first step after positive e =
    let past = steps-pass (after - first) step positive in ground arith

next_interval-least :
    (first step after : ℕ)
    → 1 ≤ step
    → (k : ℕ) × (next_interval first (some step) after ≡ ok (some (first + k * step * 1000000)))
      × ((j : ℕ) → after < first + j * step * 1000000 → k ≤ j)
unfolding next_interval
next_interval-least first step after positive = elim (Bool-cases (ltb after first)) [
  | inl before ↦ (0, ground arith, λ j _. omega arith)
  | inr reached ↦ (
    (after - first) / 1000000 / step + 1,
    ground arith,
    λ j past. steps-least (after - first) step j positive (ground arith),
  )
]

next_of_daily-after :
    (first : Instant) (daily : Option DailySchedule) (after : Instant) {t : Instant}
    → next_of_daily first daily after ≡ ok (some t)
    → (first ≤ t) × (after < t)
unfolding next_of_daily
next_of_daily-after first none after e = absurd (cc)
next_of_daily-after first (some d) after e = next_daily-following 370 d first after _ e

next_of-after :
    (k : ScheduleKind) (s : ScheduleSpec) (after : Instant) {t : Instant}
    → (k ≡ interval → (n : ℕ) × (s.interval_seconds ≡ some n) × (1 ≤ n))
    → next_of k s after ≡ ok (some t)
    → (s.first_due_at ≤ t) × (after < t)
unfolding next_of
next_of-after once s after valid e = ground arith
next_of-after interval s after {t} valid e =
    let (n, is, positive) = valid refl in
    next_interval-after s.first_due_at n after positive
      (subst (λ o. next_interval s.first_due_at o after ≡ ok (some t)) is e)
next_of-after daily_local s after e' e = next_of_daily-after s.first_due_at s.daily after e

-- The next occurrence that an accepted schedule has lies strictly behind the instant asked for,
-- and not before the schedule's first due instant.
pub next_occurrence-after :
    (s : ScheduleSpec) (first : DateTime) (after : Instant) {v : ScheduleSpec} {t : Instant}
    → schedule_spec s first ≡ ok v
    → next_occurrence v after ≡ ok (some t)
    → (v.first_due_at ≤ t) × (after < t)
unfolding next_occurrence
next_occurrence-after s first after {v} accepted e =
    next_of-after v.kind v after (schedule_spec-IsSpec s first accepted) e

-- The next occurrence of an interval schedule whose step is at least a second is the first due
-- instant plus a whole number of steps, and every such instant behind the one asked for has at
-- least that many steps, so that none is left out.
pub next_occurrence-least :
    (s : ScheduleSpec) (after : Instant) {n : ℕ}
    → s.kind ≡ interval
    → s.interval_seconds ≡ some n
    → 1 ≤ n
    → (k : ℕ) × (next_occurrence s after ≡ ok (some (s.first_due_at + k * n * 1000000)))
      × ((j : ℕ) → after < s.first_due_at + j * n * 1000000 → k ≤ j)
unfolding next_occurrence next_of
next_occurrence-least s after {n} is step positive =
    subst
      (λ kind.
        (k : ℕ) × (next_of kind s after ≡ ok (some (s.first_due_at + k * n * 1000000)))
        × ((j : ℕ) → after < s.first_due_at + j * n * 1000000 → k ≤ j))
      (sym is)
      (subst
        (λ o.
          (k : ℕ) × (next_interval s.first_due_at o after
            ≡ ok (some (s.first_due_at + k * n * 1000000)))
          × ((j : ℕ) → after < s.first_due_at + j * n * 1000000 → k ≤ j))
        (sym step) (next_interval-least s.first_due_at n after positive))
