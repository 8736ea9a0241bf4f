-- ===== src/Messaging/Tests.antt =====
-- app/messaging run on a small store: a caller, an event, and what consumes it. The children apply
-- the theorems to them.
mod Events
mod Keyed
use wanderra_os.Base.{
  ℕ, ◌+◌, ◌≡◌, ◌≢◌, refl, ap, true, false, Option, none, some, List, [], ◌∷◌, length, arith, inl,
  inr, ◌++◌,
}
use wanderra_os.Base.Text.{Text, codes, remove, contains, text_eq, strip, strip_by, lstrip_by}
use wanderra_os.Base.Json.{end, dumps, str_uuid, decimal}
use wanderra_os.Base.Numerals.{parse_uuid}
use wanderra_os.Base.Table.{find, update}
use wanderra_os.Base.Result.{Result, ok, err}
use wanderra_os.Base.Action.{◌>>=◌}
use wanderra_os.Jobs.Contracts.{DateTime, naive, aware}
use wanderra_os.ExecutionContext.Contracts.{ExecutionContext, context_eq}
use wanderra_os.ExecutionContext.Repository
use wanderra_os.Tenancy.Models.{audit_taken, outbox_taken}
use wanderra_os.Messaging.Contracts.{
  MessagingFailure, ConsumerResult, CommandEnvelope, EventEnvelope, CommandResult, event_envelope,
  request_digest, digest_of, safe_payload,
}
use wanderra_os.Messaging.Models.{
  MessagingStore, MessagingContext, EventQuarantine, QuarantineStatus,
}
use wanderra_os.Messaging.Repository.{
  uuid4, require_workspace, claim_keyed, claim_command, claim_inbox, lock_aggregate,
  lock_consumer_sequence, save_aggregate, save_command, save_sequence, save_inbox, save_quarantine,
  add_quarantine, get_quarantine, get_inbox, is_quarantine, add_audit, add_outbox,
}
use wanderra_os.Messaging.Audit.{write}
use wanderra_os.Messaging.Commands.{EventDraft, publish, record_claimed, record_command}
use wanderra_os.Messaging.Envelopes.{serialize_event, deserialize_event}
use wanderra_os.Messaging.Consumer.{
  run_apply, consume_next, consume_known, consume, quarantine_event, quarantine_claimed,
  mark_processed, finish_replay, replay_quarantined, replay,
}
use wanderra_os.Messaging.Retention.{consume-deserialize_event}
use wanderra_os.Messaging.Replays.{Replayed, replay-Replayed}
use wanderra_os.Messaging.Streams.{Stream, stream_of, last_of}
use wanderra_os.Messaging.Consumption.{Move}
use wanderra_os.Messaging.Refinement.{
  Delivery, deliver_all, numbers_taken, data_taken, count_from, consume-Move, deliver_all_in_order,
  deliver_all_data,
}
use wanderra_os.Messaging.RoundTrip.{HasUuids, deserialize_event-serialize_event}
use wanderra_os.Messaging.Keys.{record-record, record-reused}

abbrev pub caller : ExecutionContext
caller = record {
  request = record { request_id = codes "r"; correlation_id = codes "c" };
  actor = record {
    actor_id = 5;
    session_id = 6;
    membership_id = 7;
    authorization_decision_id = 8;
    delegation_id = none;
  };
  tenant = record { organization_id = 2; workspace_id = 1; cell_id = 3 };
  version = 1;
}

abbrev pub read_time : Text → Option DateTime
read_time (n ∷ []) = some (naive n)
read_time (n ∷ z ∷ []) = some (aware n)
read_time _ = none

abbrev pub context : MessagingContext
context = record {
  context = caller;
  sha256 = λ text. text;
  fresh = λ n. n;
  clock = 100;
  isoformat = λ t. elim t [ naive n ↦ n ∷ [] | aware n ↦ n ∷ 90 ∷ [] ];
  fromisoformat = read_time;
  month = λ t. [];
  str_container = λ j. [];
}

abbrev pub store : MessagingStore ℕ
store = record {
  commands = [];
  aggregates = [];
  inbox = [];
  sequences = [];
  quarantines = [];
  audit = [];
  outbox = [];
  domain = 0;
  bound = some caller;
  draws = 40;
}

-- An event of the aggregate 9 with the number.
abbrev pub event : ℕ → EventEnvelope
event number = record {
  event_id = 20 + number;
  event_type = codes "task.created";
  schema_major = 1;
  schema_minor = 0;
  workspace_id = 1;
  aggregate_type = codes "task";
  aggregate_id = 9;
  aggregate_sequence = number;
  actor_id = some 5;
  correlation_id = codes "c";
  occurred_at = aware 50;
  classification = codes "internal";
  payload = end;
  causation_id = none;
  delegation_id = none;
}

abbrev pub supported : Text → Option ℕ
supported _ = some 1

abbrev pub count : ℕ → Option ℕ
count n = some (n + 1)
