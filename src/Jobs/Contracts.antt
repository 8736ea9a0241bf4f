-- ===== src/Jobs/Contracts.antt =====
-- app/jobs/contracts.py: the enumerations, the validated values and the retry decision.
-- An aware datetime is its UTC instant in microseconds since the year 1; a naive one is kept
-- apart, since the code refuses it.
use wanderra_os.Base.{
  ℕ, ◌+◌, ◌-◌, ◌*◌, Bool, true, false, not, ◌&&◌, ◌||◌, Option, none, some, List, [], ◌∷◌, any,
  length, get_elem?, ltb, leb, ◌==◌, if◌then◌else◌,
}
use wanderra_os.Base.Text.{Text, codes, strip, contains}
use wanderra_os.Base.Json.{Json, dumps}
use wanderra_os.Base.Result.{Result, ok, err, ◌>>=◌, ◌>>◌, raise_if}

abbrev pub Instant : Type 0
Instant = ℕ

-- `timedelta(seconds=n)` in microseconds.
abbrev pub seconds : ℕ → ℕ
seconds n = n * 1000000

pub data DateTime : Type 0 where
  naive : ℕ → DateTime
  aware : Instant → DateTime

-- What the module raises, one constructor for each message. The class follows the name:
-- `unauthorized` is `JobAuthorizationError`, `key_reused` is `IdempotencyConflict`, `no_live_lease`
-- and `no_running_attempt` are `LeaseConflict`, `index_out_of_range`, `assertion_failed` and
-- `constraint_violated` are Python's or the database's own, `context_unbound`, `context_differs` and
-- `cross_workspace` are `ExecutionContextRequiredError`, and all others are `JobError`.
pub data Failure : Type 0 where
  context_unbound context_differs cross_workspace : Failure
  not_aware reference_invalid payload_not_json payload_sensitive payload_too_large : Failure
  attempts_over_budget delays_too_short delay_out_of_bounds : Failure
  version_not_positive concurrency_over_ceiling rate_over_ceiling : Failure
  deadline_before_availability classification_invalid : Failure
  interval_missing daily_missing daily_unexpected local_time_invalid timezone_unknown : Failure
  no_occurrence_within_year : Failure
  definition_exists definition_unavailable definition_missing : Failure
  backlog_quota_exceeded enqueue_rate_exceeded : Failure
  worker_invalid lease_duration_invalid cancellation_observed digest_invalid : Failure
  cancelled_cannot_succeed error_code_invalid reason_invalid terminal_job : Failure
  job_missing replay_unavailable scope_invalid scope_mismatch version_stale : Failure
  schedule_missing schedule_completed schedule_exists schedule_deadline_invalid : Failure
  unauthorized key_reused no_live_lease no_running_attempt : Failure
  index_out_of_range assertion_failed constraint_violated : Failure

pub data JobStatus : Type 0 where
  queued running retry_wait succeeded cancelled dead_lettered expired : JobStatus

pub data AttemptStatus : Type 0 where
  running succeeded failed abandoned cancelled : AttemptStatus

pub data FailureCategory : Type 0 where
  transient rate_limit quota permanent authorization validation cancelled deadline poison :
      FailureCategory

pub data ScheduleKind : Type 0 where
  once interval daily_local : ScheduleKind

pub data MisfirePolicy : Type 0 where
  skip fire_once catch_up : MisfirePolicy

pub data LocalTimePolicy : Type 0 where
  skip next_valid earliest latest : LocalTimePolicy

pub data Classification : Type 0 where
  public internal confidential restricted : Classification

-- `_aware`
unfoldable pub require_aware : DateTime → Result Failure Instant
require_aware (naive _) = err not_aware
require_aware (aware t) = ok t

-- `_reference`
unfoldable pub reference : Text → ℕ → Result Failure Text
reference value limit =
    let normalized = strip value in
    if (length normalized == 0) || ltb limit (length normalized)
    then err reference_invalid
    else ok normalized

abbrev pub forbidden_payload_terms : List Text
forbidden_payload_terms =
    codes "password"
    ∷ codes "secret"
    ∷ codes "token"
    ∷ codes "credential"
    ∷ codes "ciphertext"
    ∷ codes "private_key"
    ∷ []

-- `casefold` on the encoder's output, which is ASCII.
casefold : Text → Text
casefold [] = []
casefold (c ∷ s) = (if leb 65 c && leb c 90 then c + 32 else c) ∷ casefold s

unfoldable pub safe_payload : Json → Result Failure Json
unfolding casefold contains dumps
safe_payload payload = elim (dumps payload) [
  | none ↦ err payload_not_json
  | some encoded ↦
      if any (λ term. contains term (casefold encoded)) forbidden_payload_terms
      then err payload_sensitive
      else if ltb 262144 (length encoded)
      then err payload_too_large
      else ok payload
]

pub record RetryPolicy : Type 0 where
  pub max_attempts : ℕ
  pub delays : List ℕ

-- `RetryPolicy.__post_init__`. A count or a delay below 0 is refused as 0 is.
unfoldable pub retry_policy : ℕ → List ℕ → Result Failure RetryPolicy
retry_policy max_attempts delays = do
  raise_if (not (leb 1 max_attempts && leb max_attempts 5)) attempts_over_budget
  raise_if (ltb (length delays) (max_attempts - 1)) delays_too_short
  raise_if (any (λ delay. leb delay 0 || ltb 120 delay) delays) delay_out_of_bounds
  ok (record { max_attempts = max_attempts; delays = delays })

pub record RetryDecision : Type 0 where
  pub retry : Bool
  pub retry_at : Option Instant
  pub terminal_status : Option JobStatus

abbrev pub is_retryable : FailureCategory → Bool
is_retryable transient = true
is_retryable rate_limit = true
is_retryable quota = true
is_retryable _ = false

-- `delays[attempt_number - 1]`: Python reads index -1 from the end.
unfoldable pub delay_of : List ℕ → ℕ → Option ℕ
delay_of delays attempt_number =
    if attempt_number == 0
    then get_elem? delays (length delays - 1)
    else get_elem? delays (attempt_number - 1)

abbrev pub give_up : JobStatus → RetryDecision
give_up status = record { retry = false; retry_at = none; terminal_status = some status }

-- The decision for two aware datetimes.
unfoldable pub decide_retry :
    RetryPolicy → FailureCategory → ℕ → Instant → Instant → Result Failure RetryDecision
unfolding delay_of
decide_retry policy category attempt_number now deadline_at =
    if not (is_retryable category) || leb policy.max_attempts attempt_number
    then ok (give_up JobStatus.dead_lettered)
    else elim (delay_of policy.delays attempt_number) [
      | none ↦ err index_out_of_range
      | some delay ↦
          let retry_at = now + seconds delay in
          if leb deadline_at retry_at
          then ok (give_up JobStatus.expired)
          else ok (record { retry = true; retry_at = some retry_at; terminal_status = none })
    ]

unfoldable pub retry_decision :
    RetryPolicy → FailureCategory → ℕ → DateTime → DateTime → Result Failure RetryDecision
unfolding require_aware decide_retry
retry_decision policy category attempt_number now deadline_at = do
  now ← require_aware now
  deadline_at ← require_aware deadline_at
  decide_retry policy category attempt_number now deadline_at

pub record JobDefinitionSpec : Type 0 where
  pub definition_id : ℕ
  pub key : Text
  pub version : ℕ
  pub handler_key : Text
  pub policy : RetryPolicy
  pub max_concurrency : ℕ
  pub rate_limit_per_minute : ℕ

-- `JobDefinitionSpec.__post_init__`
unfoldable pub job_definition_spec : JobDefinitionSpec → Result Failure JobDefinitionSpec
job_definition_spec s = do
  key ← reference s.key 96
  handler_key ← reference s.handler_key 128
  raise_if (ltb s.version 1) version_not_positive
  raise_if (not (leb 1 s.max_concurrency && leb s.max_concurrency 20)) concurrency_over_ceiling
  raise_if (not (leb 1 s.rate_limit_per_minute && leb s.rate_limit_per_minute 120))
      rate_over_ceiling
  ok (record s { key = key; handler_key = handler_key })

-- The arguments of `JobEnqueue`. `classification` is `none` for a text that names no class.
pub record EnqueueInput : Type 0 where
  pub job_id : ℕ
  pub definition_id : ℕ
  pub idempotency_key : Text
  pub command_type : Text
  pub payload : Json
  pub available_at : DateTime
  pub deadline : DateTime
  pub resource_id : Option ℕ
  pub classification : Option Classification
  pub causation_id : Option ℕ

-- A command that has passed `__post_init__`.
pub record JobEnqueue : Type 0 where
  pub job_id : ℕ
  pub definition_id : ℕ
  pub idempotency_key : Text
  pub command_type : Text
  pub payload : Json
  pub available_at : Instant
  pub deadline : Instant
  pub resource_id : Option ℕ
  pub classification : Classification
  pub causation_id : Option ℕ

abbrev require_class : Option Classification → Result Failure Classification
require_class none = err classification_invalid
require_class (some c) = ok c

-- `JobEnqueue.__post_init__`
unfoldable pub job_enqueue : EnqueueInput → Result Failure JobEnqueue
job_enqueue s = do
  idempotency_key ← reference s.idempotency_key 128
  command_type ← reference s.command_type 128
  available_at ← require_aware s.available_at
  deadline_at ← require_aware s.deadline
  raise_if (leb deadline_at available_at) deadline_before_availability
  classification ← require_class s.classification
  payload ← safe_payload s.payload
  ok (record {
    job_id = s.job_id;
    definition_id = s.definition_id;
    idempotency_key = idempotency_key;
    command_type = command_type;
    payload = payload;
    available_at = available_at;
    deadline = deadline_at;
    resource_id = s.resource_id;
    classification = classification;
    causation_id = s.causation_id;
  })
