-- ===== src/Jobs/Tests/Keys.antt =====
-- Two enqueues under one idempotency key.
use wanderra_os.Base.{◌≡◌, ◌≢◌, refl, ap, true, false, [], ◌∷◌, none, some}
use wanderra_os.Base.Text.{Text, codes, text_eq}
use wanderra_os.Base.Json.{string, dumps, str_uuid}
use wanderra_os.Base.Table.{find, count_where}
use wanderra_os.Base.Action.{◌>>=◌}
use wanderra_os.Base.Result.{ok, err}
use wanderra_os.Jobs.Contracts.{Classification, JobEnqueue, key_reused, safe_payload}
use wanderra_os.Jobs.Models.{JobInstance, Store, EventType, AggregateType}
use wanderra_os.Jobs.Service.Enqueue.{
  enqueue, enqueue_new, enqueue_keyed, digest, new_job, digest_fields,
}
use wanderra_os.Jobs.Repository
use wanderra_os.Jobs.Session.{
  add_job, record_event, add_outbox, outbox_taken, audit_row, outbox_row,
}
use wanderra_os.Jobs.Calls.{empty}
use wanderra_os.Jobs.Idempotence.{enqueue-enqueue, enqueue-conflict}
use wanderra_os.Jobs.Tests.{first_context}
use wanderra_os.Jobs.Tests.Leases.{report}

abbrev command : JobEnqueue
command = record {
  job_id = 7;
  definition_id = 1;
  idempotency_key = codes "key";
  command_type = codes "build";
  payload = string (codes "march");
  available_at = 10;
  deadline = 900;
  resource_id = none;
  classification = Classification.internal;
  causation_id = none;
}

abbrev april : JobEnqueue
april = record command { payload = string (codes "april") }

abbrev registered : Store
registered = record empty { definitions = report ∷ [] }

abbrev march_text : Text
march_text =
    codes
      "{\"available_at\":\"10\",\"causation_id\":null,\"classification\":\"internal\",\"command_type\":\"build\",\"deadline\":\"900\",\"definition_id\":\"00000000-0000-0000-0000-000000000001\",\"payload\":\"march\",\"resource_id\":null}"

abbrev april_text : Text
april_text =
    codes
      "{\"available_at\":\"10\",\"causation_id\":null,\"classification\":\"internal\",\"command_type\":\"build\",\"deadline\":\"900\",\"definition_id\":\"00000000-0000-0000-0000-000000000001\",\"payload\":\"april\",\"resource_id\":null}"

march-encoded : dumps (digest_fields first_context command) ≡ some march_text
unfolding dumps digest_fields str_uuid
march-encoded = refl

april-encoded : dumps (digest_fields first_context april) ≡ some april_text
unfolding dumps digest_fields str_uuid
april-encoded = refl

abbrev march_job : JobInstance
march_job = new_job first_context command march_text command.payload 1000

abbrev enqueued : Store
enqueued = record registered {
  jobs = march_job ∷ [];
  audit = audit_row first_context 7 1 EventType.job_enqueued AggregateType.job ∷ [];
  outbox = outbox_row first_context 100 7 1 EventType.job_enqueued AggregateType.job 1000 ∷ [];
  ids_drawn = 1;
}

march-enqueued : enqueue first_context command none registered ≡ (ok march_job, enqueued)
unfolding enqueue ◌>>=◌ Repository.definition find digest dumps enqueue_keyed
    Repository.job_by_idempotency enqueue_new Repository.backlog_count count_where
    Repository.recent_enqueue_count safe_payload add_job record_event add_outbox outbox_taken
    str_uuid
march-enqueued = refl

true-false : true ≢ false
true-false same = absurd (cc)

march-digest : april_text ≢ march_job.request_digest
unfolding new_job text_eq
march-digest same = true-false (ap (text_eq april_text) same)

-- A second request with another identifier for the job, and a later clock.
enqueue-enqueue_example :
    enqueue first_context (record command { job_id = 8 }) (some 5000) enqueued
    ≡ (ok march_job, enqueued)
enqueue-enqueue_example =
    enqueue-enqueue first_context command 8 none (some 5000) registered {r = march_job}
      {t = enqueued} march-enqueued

enqueue-conflict_example :
    enqueue first_context april (some 5000) enqueued ≡ (err key_reused, enqueued)
enqueue-conflict_example =
    enqueue-conflict first_context command april none (some 5000) registered {r = march_job}
      {t = enqueued} april_text march-enqueued refl refl april-encoded march-digest
