-- ===== src/Jobs/Schedules.antt =====
-- app/jobs/contracts.py: schedules, the instants that are due, and the next one.
-- A time zone is `ZoneInfo`'s two conversions, given as a parameter: the instant of a local wall
-- clock with its fold, and the wall clock of an instant. Both count microseconds.
use wanderra_os.Base.{
  ℕ, zero, suc, ◌+◌, ◌-◌, ◌*◌, ◌/◌, Bool, true, false, not, ◌&&◌, ◌||◌, Option, none, some, List,
  [], ◌∷◌, ◌++◌, length, drop, ltb, leb, ◌==◌, if◌then◌else◌, is_some,
}
use wanderra_os.Base.Result.{Result, ok, err, ◌>>=◌, ◌>>◌, raise_if}
use wanderra_os.Jobs.Contracts.{
  Instant, seconds, DateTime, require_aware, Failure, interval_missing, daily_missing,
  daily_unexpected, local_time_invalid, assertion_failed, no_occurrence_within_year, ScheduleKind,
  once, interval, daily_local, MisfirePolicy, fire_once, catch_up, LocalTimePolicy, next_valid,
  latest,
}

pub record Zone : Type 0 where
  pub to_utc : Bool → ℕ → Instant
  pub to_local : Instant → ℕ

pub record DailySchedule : Type 0 where
  pub hour : ℕ
  pub minute : ℕ
  pub zone : Zone
  pub local_time_policy : LocalTimePolicy

-- `DailySchedule.__post_init__`, for a time zone that is known.
unfoldable pub daily_schedule : DailySchedule → Result Failure DailySchedule
daily_schedule d = do
  raise_if (not (leb d.hour 23) || not (leb d.minute 59)) local_time_invalid
  ok d

pub record ScheduleSpec : Type 0 where
  pub schedule_id : ℕ
  pub definition_id : ℕ
  pub kind : ScheduleKind
  pub first_due_at : Instant
  pub misfire_policy : MisfirePolicy
  pub interval_seconds : Option ℕ
  pub daily : Option DailySchedule

abbrev is_interval : ScheduleKind → Bool
is_interval interval = true
is_interval _ = false

abbrev is_daily : ScheduleKind → Bool
is_daily daily_local = true
is_daily _ = false

abbrev pub interval_bad : Option ℕ → Bool
interval_bad none = true
interval_bad (some n) = ltb n 1

-- `ScheduleSpec.__post_init__`; the two conversions to an enumeration are the field's type.
unfoldable pub schedule_spec : ScheduleSpec → DateTime → Result Failure ScheduleSpec
unfolding require_aware
schedule_spec s first_due_at = do
  first ← require_aware first_due_at
  raise_if (is_interval s.kind && interval_bad s.interval_seconds) interval_missing
  raise_if (is_daily s.kind && not (is_some s.daily)) daily_missing
  raise_if (not (is_daily s.kind) && is_some s.daily) daily_unexpected
  ok (record s { first_due_at = first })

abbrev pub day_length : ℕ
day_length = 86400000000

abbrev pub minute_length : ℕ
minute_length = 60000000

-- The local wall clock that a daily schedule means on a day, counted from the year 1.
unfoldable pub wall_clock : DailySchedule → ℕ → ℕ
wall_clock d day = day * day_length + (d.hour * 60 + d.minute) * minute_length

listed : Instant → List Instant → Bool
listed t [] = false
listed t (c ∷ cs) = (c == t) || listed t cs

-- The candidates with the one of a fold, if it is real and not there yet.
unfoldable pub fold_candidate : Zone → ℕ → Bool → List Instant → List Instant
unfolding listed
fold_candidate z clock fold candidates =
    let utc_value = z.to_utc fold clock in
    if (z.to_local utc_value == clock) && not (listed utc_value candidates)
    then candidates ++ (utc_value ∷ [])
    else candidates

-- `max` and `min` of a list with a first item.
abbrev pub greatest : Instant → List Instant → Instant
greatest t [] = t
greatest t (c ∷ cs) = greatest (if ltb t c then c else t) cs

abbrev pub least : Instant → List Instant → Instant
least t [] = t
least t (c ∷ cs) = least (if ltb c t then c else t) cs

-- The search of a skipped clock's next valid minute, with the rounds that are left.
unfoldable pub next_valid_minute : ℕ → Zone → ℕ → ℕ → Option Instant
next_valid_minute zero z clock offset = none
next_valid_minute (suc rounds) z clock offset =
    let shifted = clock + offset * minute_length in
    let utc_value = z.to_utc false shifted in
    let rest = next_valid_minute rounds z clock (offset + 1) in
    if z.to_local utc_value == shifted then some utc_value else rest

unfoldable pub choose_candidate : LocalTimePolicy → Zone → ℕ → List Instant → Option Instant
unfolding next_valid_minute
choose_candidate next_valid z clock [] = next_valid_minute 180 z clock 1
choose_candidate _ z clock [] = none
choose_candidate latest z clock (c ∷ cs) = some (greatest c cs)
choose_candidate _ z clock (c ∷ cs) = some (least c cs)

-- `_resolve_local`
unfoldable pub resolve_local : ℕ → DailySchedule → Option Instant
unfolding wall_clock fold_candidate choose_candidate
resolve_local day d =
    let clock = wall_clock d day in
    choose_candidate d.local_time_policy d.zone clock
      (fold_candidate d.zone clock true (fold_candidate d.zone clock false []))

-- `[first + step * value for value in range(start, start + rounds)]`
unfoldable pub interval_values : ℕ → Instant → ℕ → ℕ → List Instant
interval_values zero first step start = []
interval_values (suc rounds) first step start =
    (first + step * start) ∷ interval_values rounds first step (start + 1)

abbrev pub keep_due : Instant → Instant → Option Instant → List Instant → List Instant
keep_due first now none rest = rest
keep_due first now (some t) rest = if leb first t && leb t now then t ∷ rest else rest

unfoldable pub daily_values : ℕ → DailySchedule → Instant → Instant → ℕ → List Instant
unfolding resolve_local
daily_values zero d first now day = []
daily_values (suc rounds) d first now day =
    keep_due first now (resolve_local day d) (daily_values rounds d first now (day + 1))

-- `values[-10:]`
abbrev pub last_ten : List Instant → List Instant
last_ten values = drop (length values - 10) values

unfoldable pub all_due_interval : Instant → Option ℕ → Instant → Result Failure (List Instant)
unfolding interval_values
all_due_interval first none now = err assertion_failed
all_due_interval first (some step) now =
    let elapsed = (now - first) / 1000000 in
    let count = elapsed / step + 1 in
    ok (interval_values (count - (count - 10)) first (seconds step) (count - 10))

-- No day is tried where the local date of `now` lies before that of the first instant.
unfoldable pub all_due_daily :
    Instant → Option DailySchedule → Instant → Result Failure (List Instant)
unfolding daily_values
all_due_daily first none now = err assertion_failed
all_due_daily first (some d) now =
    let first_day = d.zone.to_local first / day_length in
    let last_day = d.zone.to_local now / day_length in
    let days = last_day - first_day in
    let rounds = if ltb last_day first_day then 0 else days + 1 - (days - 10) in
    ok (last_ten (daily_values rounds d first now (first_day + (days - 10))))

unfoldable pub due_of : ScheduleKind → ScheduleSpec → Instant → Result Failure (List Instant)
unfolding all_due_interval all_due_daily
due_of once s now = ok (s.first_due_at ∷ [])
due_of interval s now = all_due_interval s.first_due_at s.interval_seconds now
due_of daily_local s now = all_due_daily s.first_due_at s.daily now

-- `_all_due`, for an instant that is aware.
unfoldable pub all_due : ScheduleSpec → Instant → Result Failure (List Instant)
unfolding due_of
all_due s now = if ltb now s.first_due_at then ok [] else due_of s.kind s now

unfoldable pub select_due : MisfirePolicy → Instant → List Instant → List Instant
select_due policy now [] = []
select_due MisfirePolicy.skip now (t ∷ ts) = []
select_due fire_once now (t ∷ ts) = now ∷ []
select_due catch_up now (t ∷ ts) = last_ten (t ∷ ts)

unfoldable pub due_occurrences : ScheduleSpec → Instant → Result Failure (List Instant)
unfolding all_due select_due
due_occurrences s now = do due ← all_due s now; ok (select_due s.misfire_policy now due)

abbrev pub is_following : Instant → Instant → Option Instant → Bool
is_following first after none = false
is_following first after (some t) = leb first t && ltb after t

-- The loop over the days of one year, with the rounds that are left.
unfoldable pub next_daily :
    ℕ → DailySchedule → Instant → Instant → ℕ → Result Failure (Option Instant)
unfolding resolve_local
next_daily zero d first after day = err no_occurrence_within_year
next_daily (suc rounds) d first after day =
    let candidate = resolve_local day d in
    let rest = next_daily rounds d first after (day + 1) in
    if is_following first after candidate then ok candidate else rest

unfoldable pub next_interval : Instant → Option ℕ → Instant → Result Failure (Option Instant)
next_interval first none after = err assertion_failed
next_interval first (some step) after =
    if ltb after first
    then ok (some first)
    else ok (some (first + seconds (((after - first) / 1000000 / step + 1) * step)))

unfoldable pub next_of_daily :
    Instant → Option DailySchedule → Instant → Result Failure (Option Instant)
unfolding next_daily
next_of_daily first none after = err assertion_failed
next_of_daily first (some d) after =
    next_daily 370 d first after (d.zone.to_local after / day_length)

unfoldable pub next_of : ScheduleKind → ScheduleSpec → Instant → Result Failure (Option Instant)
unfolding next_interval next_of_daily
next_of once s after = ok (if ltb after s.first_due_at then some s.first_due_at else none)
next_of interval s after = next_interval s.first_due_at s.interval_seconds after
next_of daily_local s after = next_of_daily s.first_due_at s.daily after

-- `next_occurrence`, for an instant that is aware.
unfoldable pub next_occurrence : ScheduleSpec → Instant → Result Failure (Option Instant)
unfolding next_of
next_occurrence s after = next_of s.kind s after
