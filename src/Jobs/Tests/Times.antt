-- ===== src/Jobs/Tests/Times.antt =====
-- Schedules at concrete instants.
use wanderra_os.Base.{ℕ, ◌+◌, ◌*◌, ◌<◌, ◌≤◌, ◌≡◌, refl, none, some, [], ◌∷◌, arith}
use wanderra_os.Base.Result.{ok}
use wanderra_os.Jobs.Contracts.{DateTime, ScheduleKind, MisfirePolicy, LocalTimePolicy}
use wanderra_os.Jobs.Schedules.{Zone, ScheduleSpec, schedule_spec, due_occurrences, next_occurrence}
use wanderra_os.Jobs.Recurrence.Next.{next_occurrence-after, next_occurrence-least}
use wanderra_os.Jobs.Recurrence.Due.{due_occurrences-AreDue, AreDue}

-- Each minute from the first second on.
abbrev minutely : ScheduleSpec
minutely = record {
  schedule_id = 3;
  definition_id = 1;
  kind = ScheduleKind.interval;
  first_due_at = 1000000;
  misfire_policy = MisfirePolicy.catch_up;
  interval_seconds = some 60;
  daily = none;
}

abbrev universal : Zone
universal = record { to_utc = λ _ clock. clock; to_local = λ t. t }

-- At half past six each day.
abbrev daily : ScheduleSpec
daily = record minutely {
  kind = ScheduleKind.daily_local;
  interval_seconds = none;
  daily = some (record {
    hour = 6;
    minute = 30;
    zone = universal;
    local_time_policy = LocalTimePolicy.skip;
  });
}

abbrev skipping : ScheduleSpec
skipping = record minutely { misfire_policy = MisfirePolicy.skip }

minutely-accepted : schedule_spec minutely (DateTime.aware 1000000) ≡ ok minutely
unfolding schedule_spec
minutely-accepted = refl

daily-accepted : schedule_spec daily (DateTime.aware 1000000) ≡ ok daily
unfolding schedule_spec
daily-accepted = refl

-- The next morning.
daily-next : next_occurrence daily 86400000000 ≡ ok (some 109800000000)
unfolding next_occurrence
daily-next = refl

minutely-due : due_occurrences minutely 130000000 ≡ ok (1000000 ∷ 61000000 ∷ 121000000 ∷ [])
unfolding due_occurrences
minutely-due = refl

-- A schedule that skips what it missed has nothing due at its very first instant either.
skipping-due : due_occurrences skipping 1000000 ≡ ok []
unfolding due_occurrences
skipping-due = refl

next_occurrence-after_example : (1000000 ≤ 109800000000) × (86400000000 < 109800000000)
next_occurrence-after_example =
    next_occurrence-after daily (DateTime.aware 1000000) 86400000000 {v = daily} {t = 109800000000}
      daily-accepted daily-next

next_occurrence-least_example :
    (k : ℕ) × (next_occurrence minutely 61000000 ≡ ok (some (1000000 + k * 60 * 1000000)))
    × ((j : ℕ) → 61000000 < 1000000 + j * 60 * 1000000 → k ≤ j)
next_occurrence-least_example =
    next_occurrence-least minutely 61000000 {n = 60} refl refl (omega arith)

due_occurrences-AreDue_example : AreDue 1000000 130000000 (1000000 ∷ 61000000 ∷ 121000000 ∷ [])
due_occurrences-AreDue_example =
    due_occurrences-AreDue minutely (DateTime.aware 1000000) 130000000 {v = minutely}
      {due = 1000000 ∷ 61000000 ∷ 121000000 ∷ []} minutely-accepted minutely-due
