-- ===== src/Jobs/Calls.antt =====
-- The public methods of `JobService` as calls, each by a context of its own. A caller builds the
-- validated values first, so a call begins with their checks.
use wanderra_os.Base.{ℕ, Bool, Option, List, [], ◌∷◌}
use wanderra_os.Base.Text.{Text}
use wanderra_os.Base.Json.{Json}
use wanderra_os.Base.Action.{◌>>=◌, pure, lift}
use wanderra_os.Jobs.Contracts.{
  Instant, FailureCategory, EnqueueInput, JobDefinitionSpec, retry_policy, job_definition_spec,
  job_enqueue, DateTime,
}
use wanderra_os.Jobs.Schedules.{ScheduleSpec, schedule_spec}
use wanderra_os.Jobs.Models.{ScopeType, Store, Context}
use wanderra_os.Jobs.Repository.{Job}
use wanderra_os.Jobs.Service.Enqueue
use wanderra_os.Jobs.Service.Lifecycle
use wanderra_os.Jobs.Service.Operator
use wanderra_os.Jobs.Service.Dispatch

pub data Call : Type 0 where
  register_definition : JobDefinitionSpec → Option Instant → Call
  enqueue : EnqueueInput → Option Instant → Call
  claim_next : Text → Instant → ℕ → Call
  heartbeat : ℕ → Text → Instant → Call
  succeed : ℕ → Text → Text → Instant → Call
  fail : ℕ → Text → FailureCategory → Text → Instant → Call
  cancel : ℕ → Text → Option Instant → Call
  replay : ℕ → ℕ → Text → Text → Instant → Call
  set_paused : ScopeType → Text → Bool → Text → ℕ → Option Instant → Call
  set_schedule_paused : ℕ → Bool → Text → ℕ → Option Instant → Call
  register_schedule : ScheduleSpec → DateTime → Text → Json → Text → ℕ → Option Instant → Call
  dispatch_due_schedules : Instant → Call

module _ (context : Context) where
  unfoldable pub register : JobDefinitionSpec → Option Instant → Job (Unit {0})
  register spec now = do
    policy ← lift (retry_policy spec.policy.max_attempts spec.policy.delays)
    accepted ← lift (job_definition_spec (record spec { policy = policy }))
    _ ← Enqueue.register_definition context accepted now
    pure tt

  unfoldable pub call : Call → Job (Unit {0})
  unfolding register
  call (register_definition spec now) = register spec now
  call (enqueue input now) = do
    command ← lift (job_enqueue input)
    _ ← Enqueue.enqueue context command now
    pure tt
  call (claim_next worker now duration) = do
    _ ← Lifecycle.claim_next context worker now duration
    pure tt
  call (heartbeat id worker now) = Lifecycle.heartbeat context id worker now
  call (succeed id worker result now) = do
    _ ← Lifecycle.succeed context id worker result now
    pure tt
  call (fail id worker category code now) = do
    _ ← Lifecycle.fail context id worker category code now
    pure tt
  call (cancel id reason now) = do _ ← Operator.cancel context id reason now; pure tt
  call (replay id new_id key reason now) = do
    _ ← Operator.replay context id new_id key reason now
    pure tt
  call (set_paused kind scope paused reason version now) = do
    _ ← Operator.set_paused context kind scope paused reason version now
    pure tt
  call (set_schedule_paused id paused reason version now) = do
    _ ← Operator.set_schedule_paused context id paused reason version now
    pure tt
  call (register_schedule spec first command payload prefix deadline now) = do
    accepted ← lift (schedule_spec spec first)
    _ ← Dispatch.register_schedule context accepted command payload prefix deadline now
    pure tt
  call (dispatch_due_schedules now) = do _ ← Dispatch.dispatch_due_schedules context now; pure tt

-- Calls of any workspaces, one after the other, whether each returns or raises.
unfoldable pub run : List (Context × Call) → Store → Store
run [] s = s
run ((context, c) ∷ cs) s = run cs (call context c s).1

abbrev pub empty : Store
empty = record {
  definitions = [];
  jobs = [];
  attempts = [];
  dead_letters = [];
  schedules = [];
  controls = [];
  audit = [];
  outbox = [];
  ids_drawn = 0;
}
