-- ===== src/Jobs/Tests.antt =====
-- app/jobs run on small inputs: the theorems applied to concrete stores.
mod Leases
mod Keys
mod Times
use wanderra_os.Base.{
  ℕ, ◌+◌, ◌<◌, ◌≤◌, ◌≡◌, refl, Bool, true, false, Option, none, some, List, [], ◌∷◌, All,
}
use wanderra_os.Base.Text.{Text, codes}
use wanderra_os.Base.Json.{decimal, Json, string, object, end, field}
use wanderra_os.Base.Result.{Result, ok, err}
use wanderra_os.Jobs.Contracts.{
  Instant, seconds, DateTime, FailureCategory, JobStatus, AttemptStatus, ScheduleKind,
  MisfirePolicy, Classification, RetryPolicy, JobDefinitionSpec, EnqueueInput, JobEnqueue,
  no_live_lease, key_reused,
}
use wanderra_os.Jobs.Models.{
  Tenant, JobDefinition, DefinitionStatus, JobInstance, JobAttempt, Store, Context, Permission,
}
use wanderra_os.Jobs.Calls.{Call, call, run, empty}
use wanderra_os.Jobs.Invariant.{IsValid, SameForeign}
use wanderra_os.Jobs.Safety.{run-IsValid, call-SameForeign, run-constraints, MeetsConstraints}

-- A context of a workspace, with a hash that is the identity.
abbrev context_of : ℕ → Context
context_of workspace_id = record {
  tenant = record { organization_id = 1; workspace_id = workspace_id; cell_id = 1 };
  actor_id = 5;
  delegation_id = none;
  correlation_id = codes "correlation";
  authorize = λ _. true;
  id_factory = λ n. n + 100;
  clock = 1000;
  sha256 = λ text. text;
  isoformat = decimal;
  is_locked = λ _. false;
  is_bound = true;
  is_current = true;
}

abbrev pub first_context : Context
first_context = context_of 1

abbrev second_context : Context
second_context = context_of 2

abbrev pub policy : RetryPolicy
policy = record { max_attempts = 3; delays = 5 ∷ 30 ∷ [] }

abbrev pub definition_spec : JobDefinitionSpec
definition_spec = record {
  definition_id = 1;
  key = codes "report";
  version = 1;
  handler_key = codes "report.build";
  policy = policy;
  max_concurrency = 2;
  rate_limit_per_minute = 10;
}

abbrev input : EnqueueInput
input = record {
  job_id = 7;
  definition_id = 1;
  idempotency_key = codes "key";
  command_type = codes "build";
  payload = string (codes "march");
  available_at = DateTime.aware 10;
  deadline = DateTime.aware 900000000;
  resource_id = none;
  classification = some Classification.internal;
  causation_id = none;
}

abbrev pub worker : Text
worker = codes "worker"

-- 64 characters.
abbrev pub result_digest : Text
result_digest = codes "0123456789abcdef0123456789abcdef0123456789abcdef0123456789abcdef"

-- A definition, a job that is claimed and succeeds, and a claim of the other workspace.
abbrev pub script : List (Context × Call)
script =
    (first_context, Call.register_definition definition_spec none)
    ∷ (first_context, Call.enqueue input none)
    ∷ (first_context, Call.claim_next worker 2000 30)
    ∷ (second_context, Call.claim_next worker 3000 30)
    ∷ (first_context, Call.succeed 7 worker result_digest 4000)
    ∷ []

abbrev empty_valid : IsValid empty
empty_valid = record { definitions_valid = tt; jobs_valid = tt }

run-IsValid_example : IsValid (run script empty)
run-IsValid_example = run-IsValid script empty empty_valid

run-constraints_example : All MeetsConstraints (run script empty).jobs
run-constraints_example = run-constraints script

call-SameForeign_example :
    SameForeign second_context
      (run script empty)
      (call second_context (Call.cancel 7 (codes "reason") none) (run script empty)).1
call-SameForeign_example =
    call-SameForeign second_context (Call.cancel 7 (codes "reason") none) (run script empty)
      (run-IsValid script empty empty_valid)
