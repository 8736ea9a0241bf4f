-- ===== src/Messaging/Tests/Keyed.antt =====
-- `CommandService` of app/messaging/service.py on two commands under one key.
use wanderra_os.Base.{◌≡◌, ◌≢◌, refl, ap, true, false, none, some, []}
use wanderra_os.Base.Text.{Text, codes, contains, text_eq}
use wanderra_os.Base.Json.{end, dumps, str_uuid, decimal}
use wanderra_os.Base.Table.{find, update}
use wanderra_os.Base.Result.{Result, ok, err}
use wanderra_os.Base.Action.{◌>>=◌}
use wanderra_os.ExecutionContext.Contracts.{context_eq}
use wanderra_os.ExecutionContext.Repository
use wanderra_os.Tenancy.Models.{audit_taken, outbox_taken}
use wanderra_os.Messaging.Contracts.{
  MessagingFailure, CommandEnvelope, CommandResult, request_digest, digest_of, safe_payload,
}
use wanderra_os.Messaging.Repository.{
  uuid4, require_workspace, claim_keyed, claim_command, lock_aggregate, save_aggregate,
  save_command, add_audit, add_outbox,
}
use wanderra_os.Messaging.Audit.{write}
use wanderra_os.Messaging.Commands.{EventDraft, publish, record_claimed, record_command}
use wanderra_os.Messaging.Keys.{record-record, record-reused}
use wanderra_os.Messaging.Tests.{context, store}

abbrev command : CommandEnvelope
command = record {
  workspace_id = 1;
  actor_id = 5;
  command_type = codes "task.create";
  idempotency_key = codes "k";
  aggregate_type = codes "task";
  aggregate_id = 9;
  expected_version = 0;
  correlation_id = codes "c";
  payload = end;
  causation_id = none;
  delegation_id = none;
}

abbrev draft : EventDraft
draft = record {
  event_type = codes "task.created";
  event_payload = end;
  schema_major = 1;
  schema_minor = 0;
}

abbrev answer : CommandResult
answer = record { event_id = 40; aggregate_version = 1; replayed = false }

command_run :
    record_command context command draft none store
    ≡ (ok answer, (record_command context command draft none store).1)
unfolding record_command record_claimed publish claim_command claim_keyed lock_aggregate
    save_aggregate save_command add_audit add_outbox write uuid4 require_workspace
    Repository.require_workspace context_eq request_digest digest_of safe_payload dumps contains
    find update audit_taken outbox_taken ◌>>=◌ text_eq str_uuid decimal
command_run = refl

record-record_example :
    record_command context command draft
      (some 200)
      (record_command context command draft none store).1
    ≡ (ok (record answer { replayed = true }), (record_command context command draft none store).1)
record-record_example =
    record-record context command draft none (some 200) store {r = answer}
      {t = (record_command context command draft none store).1} command_run refl

-- The same key for another expected version.
abbrev other : CommandEnvelope
other = record command { expected_version = 1 }

abbrev text_or_nothing : Result MessagingFailure Text → Text
text_or_nothing (ok s) = s
text_or_nothing (err e) = []

abbrev other_digest : Text
other_digest = text_or_nothing (request_digest context.sha256 other)

other-digested : request_digest context.sha256 other ≡ ok other_digest
unfolding request_digest digest_of dumps
other-digested = refl

digests_differ : request_digest context.sha256 command ≢ ok other_digest
unfolding request_digest digest_of dumps str_uuid decimal text_eq
digests_differ h =
    let same : false ≡ true = ap (λ r. text_eq (text_or_nothing r) other_digest) h in absurd (cc)

draft-safe : safe_payload draft.event_payload ≡ ok end
unfolding safe_payload dumps contains
draft-safe = refl

record-reused_example :
    record_command context other draft
      (some 200)
      (record_command context command draft none store).1
    ≡ (err MessagingFailure.key_reused, (record_command context command draft none store).1)
record-reused_example =
    record-reused context command other draft draft none (some 200) end other_digest store
      {r = answer} {t = (record_command context command draft none store).1} command_run refl refl
      refl refl refl other-digested digests_differ draft-safe
