-- ===== src/Jobs/Recurrence/Due.antt =====
-- `due_occurrences` of app/jobs/contracts.py: the instants that a schedule has due.
use wanderra_os.Base.{
  ℕ, zero, suc, ◌+◌, ◌-◌, ◌*◌, ◌/◌, ◌≤◌, ◌≡◌, refl, ap, subst, Option, none, some, List, [], ◌∷◌,
  All, All-drop, length, length-drop, arith, ltb, Bool-cases, inl, inr, if◌then◌else◌,
}
use wanderra_os.Base.Result.{ok, ok-injective, ok-err, Result-cases}
use wanderra_os.Jobs.Contracts.{
  Instant, seconds, DateTime, ScheduleKind, once, interval, daily_local, MisfirePolicy, fire_once,
  catch_up,
}
use wanderra_os.Jobs.Schedules.{
  DailySchedule, ScheduleSpec, schedule_spec, keep_due, last_ten, interval_values, daily_values,
  all_due, all_due_interval, all_due_daily, due_of, select_due, due_occurrences, resolve_local,
  day_length,
}
use wanderra_os.Jobs.Recurrence.Next.{IsSpec, schedule_spec-IsSpec}

-- What is kept of a day's instant is due.
keep_due-bounded :
    (first now : Instant) (o : Option Instant) (rest : List Instant)
    → All (λ t. (first ≤ t) × (t ≤ now)) rest
    → All (λ t. (first ≤ t) × (t ≤ now)) (keep_due first now o rest)
keep_due-bounded first now none rest a = a
keep_due-bounded first now (some t) rest a = ground arith

step-fits :
    (elapsed step k : ℕ) → 1 ≤ step → k ≤ elapsed / 1000000 / step → k * step * 1000000 ≤ elapsed
step-fits elapsed step k positive fits = grind arith

-- The instants of a validated interval up to a count of whole steps that has passed.
interval_values-bounded :
    (rounds first step start now : ℕ)
    → 1 ≤ step
    → first ≤ now
    → start + rounds ≤ (now - first) / 1000000 / step + 1
    → All (λ t. (first ≤ t) × (t ≤ now)) (interval_values rounds first (seconds step) start)
unfolding interval_values
interval_values-bounded zero first step start now positive begun fits = tt
interval_values-bounded (suc rounds) first step start now positive begun fits =
    let fit = step-fits (now - first) step start positive (omega arith) in
    (
      (omega arith, ground arith),
      interval_values-bounded rounds first step (start + 1) now positive begun (omega arith),
    )

length-interval_values :
    (rounds first step start : ℕ) → length (interval_values rounds first step start) ≡ rounds
unfolding interval_values
length-interval_values zero first step start = refl
length-interval_values (suc rounds) first step start =
    ap suc (length-interval_values rounds first step (start + 1))

daily_values-bounded :
    (rounds : ℕ) (d : DailySchedule) (first now : Instant) (day : ℕ)
    → All (λ t. (first ≤ t) × (t ≤ now)) (daily_values rounds d first now day)
unfolding daily_values
daily_values-bounded zero d first now day = tt
daily_values-bounded (suc rounds) d first now day =
    keep_due-bounded first now (resolve_local day d) _
      (daily_values-bounded rounds d first now (day + 1))

-- At most ten instants, and each is due.
abbrev pub AreDue : Instant → Instant → List Instant → Type 0
AreDue first now due = (length due ≤ 10) × All (λ t. (first ≤ t) × (t ≤ now)) due

last_ten-AreDue :
    (first now : Instant) (due : List Instant)
    → All (λ t. (first ≤ t) × (t ≤ now)) due
    → AreDue first now (last_ten due)
last_ten-AreDue first now due a =
    (omega (arith, length-drop (length due - 10) due), All-drop _ (length due - 10) due a)

all_due_interval-AreDue :
    (first step now : ℕ) {due : List Instant}
    → 1 ≤ step
    → first ≤ now
    → all_due_interval first (some step) now ≡ ok due
    → AreDue first now due
unfolding all_due_interval
all_due_interval-AreDue first step now {due} positive begun e =
    let count = (now - first) / 1000000 / step + 1 in
    subst (AreDue first now) (ok-injective _ _ e) (
      omega
          (arith, length-interval_values (count - (count - 10)) first (seconds step) (count - 10)),
      interval_values-bounded (count - (count - 10)) first step (count - 10) now positive begun
          (omega arith),
    )

all_due_daily-AreDue :
    (first : Instant) (daily : Option DailySchedule) (now : Instant) {due : List Instant}
    → all_due_daily first daily now ≡ ok due
    → AreDue first now due
unfolding all_due_daily
all_due_daily-AreDue first none now e = absurd (ok-err _ _ e)
all_due_daily-AreDue first (some d) now e =
    let first_day = d.zone.to_local first / day_length in
    let last_day = d.zone.to_local now / day_length in
    let days = last_day - first_day in
    let rounds = if ltb last_day first_day then 0 else days + 1 - (days - 10) in
    let start = first_day + (days - 10) in
    subst (AreDue first now) (ok-injective _ _ e) (
      last_ten-AreDue first now (daily_values rounds d first now start)
        (daily_values-bounded rounds d first now start))

due_of-AreDue :
    (k : ScheduleKind) (s : ScheduleSpec) (now : Instant) {due : List Instant}
    → (k ≡ interval → (n : ℕ) × (s.interval_seconds ≡ some n) × (1 ≤ n))
    → s.first_due_at ≤ now
    → due_of k s now ≡ ok due
    → AreDue s.first_due_at now due
unfolding due_of all_due_daily
due_of-AreDue once s now {due} valid begun e =
    subst (AreDue s.first_due_at now) (ok-injective _ _ e) (omega arith, ((omega arith, begun), tt))
due_of-AreDue interval s now {due} valid begun e =
    let (n, is, positive) = valid refl in
    all_due_interval-AreDue s.first_due_at n now positive begun
      (subst (λ o. all_due_interval s.first_due_at o now ≡ ok due) is e)
due_of-AreDue daily_local s now valid begun e = all_due_daily-AreDue s.first_due_at s.daily now e

select_due-AreDue :
    (policy : MisfirePolicy) (first now : Instant) (due : List Instant)
    → first ≤ now
    → AreDue first now due
    → AreDue first now (select_due policy now due)
unfolding select_due
select_due-AreDue policy first now [] begun a = a
select_due-AreDue MisfirePolicy.skip first now (t ∷ ts) begun a = (omega arith, tt)
select_due-AreDue fire_once first now (t ∷ ts) begun a = (omega arith, ((begun, omega arith), tt))
select_due-AreDue catch_up first now (t ∷ ts) begun a = last_ten-AreDue first now (t ∷ ts) a.1

due_occurrences-bounded :
    (s : ScheduleSpec) (now : Instant) {due : List Instant}
    → IsSpec s
    → due_occurrences s now ≡ ok due
    → AreDue s.first_due_at now due
unfolding due_occurrences all_due select_due
due_occurrences-bounded s now {due} valid e = elim (Bool-cases (ltb now s.first_due_at)) [
  | inl early ↦
      subst (AreDue s.first_due_at now) (ok-injective _ _ (rw early at e)) (omega arith, tt)
  | inr begun ↦ elim (Result-cases (due_of s.kind s now)) [
    | inl (found, computed) ↦
        subst (AreDue s.first_due_at now) (ok-injective _ _ (rw (begun, computed) at e)) (
          select_due-AreDue s.misfire_policy s.first_due_at now found (ground arith)
            (due_of-AreDue s.kind s now valid (ground arith) computed))
    | inr (failure, raised) ↦ absurd (ok-err _ _ (rw (begun, raised) at e))
  ]
]

-- What `due_occurrences` returns for an accepted schedule are at most ten instants, none before
-- the first due instant and none after the instant of the evaluation.
pub due_occurrences-AreDue :
    (s : ScheduleSpec) (first : DateTime) (now : Instant) {v : ScheduleSpec} {due : List Instant}
    → schedule_spec s first ≡ ok v
    → due_occurrences v now ≡ ok due
    → AreDue v.first_due_at now due
due_occurrences-AreDue s first now {v} accepted e =
    due_occurrences-bounded v now (schedule_spec-IsSpec s first accepted) e
