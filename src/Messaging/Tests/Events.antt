-- ===== src/Messaging/Tests/Events.antt =====
-- `EventConsumerService` of app/messaging/service.py on the events of one aggregate.
use wanderra_os.Base.{ℕ, ◌+◌, ◌≡◌, refl, false, none, some, List, [], ◌∷◌, length, arith, inr, ◌++◌}
use wanderra_os.Base.Text.{codes, remove, contains, text_eq, strip, strip_by, lstrip_by}
use wanderra_os.Base.Json.{dumps, str_uuid, decimal}
use wanderra_os.Base.Numerals.{parse_uuid}
use wanderra_os.Base.Table.{find, update}
use wanderra_os.Base.Result.{ok}
use wanderra_os.Base.Action.{◌>>=◌}
use wanderra_os.ExecutionContext.Contracts.{context_eq}
use wanderra_os.ExecutionContext.Repository
use wanderra_os.Tenancy.Models.{audit_taken}
use wanderra_os.Messaging.Contracts.{
  ConsumerResult, EventEnvelope, event_envelope, digest_of, safe_payload,
}
use wanderra_os.Messaging.Models.{MessagingStore, EventQuarantine, QuarantineStatus}
use wanderra_os.Messaging.Repository.{
  uuid4, require_workspace, claim_inbox, lock_consumer_sequence, save_sequence, save_inbox,
  save_quarantine, add_quarantine, get_quarantine, get_inbox, is_quarantine, add_audit,
}
use wanderra_os.Messaging.Audit.{write}
use wanderra_os.Messaging.Envelopes.{serialize_event, deserialize_event}
use wanderra_os.Messaging.Consumer.{
  run_apply, consume_next, consume_known, consume, quarantine_event, quarantine_claimed,
  mark_processed, finish_replay, replay_quarantined, replay,
}
use wanderra_os.Messaging.Retention.{consume-deserialize_event}
use wanderra_os.Messaging.Replays.{Replayed, replay-Replayed}
use wanderra_os.Messaging.Streams.{Stream, stream_of, last_of}
use wanderra_os.Messaging.Consumption.{Move}
use wanderra_os.Messaging.Refinement.{
  Delivery, deliver_all, numbers_taken, data_taken, count_from, consume-Move, deliver_all_in_order,
  deliver_all_data,
}
use wanderra_os.Messaging.RoundTrip.{HasUuids, deserialize_event-serialize_event}
use wanderra_os.Messaging.Tests.{caller, context, store, event, supported, count}

first_run : consume context supported (event 1) (codes "w") (some count) store ≡ (
  ok ConsumerResult.processed,
  (consume context supported (event 1) (codes "w") (some count) store).1,
)
unfolding consume consume_known consume_next run_apply claim_inbox lock_consumer_sequence
    save_sequence require_workspace Repository.require_workspace context_eq safe_payload digest_of
    dumps contains find update ◌>>=◌ text_eq
first_run = refl

consume-Move_example :
    Move
      (event 1)
      (codes "w")
      (some count)
      store
      (consume context supported (event 1) (codes "w") (some count) store).1
      ConsumerResult.processed
consume-Move_example =
    consume-Move context supported (event 1) (codes "w") (some count) store
      {r = ConsumerResult.processed}
      {t = (consume context supported (event 1) (codes "w") (some count) store).1} first_run

abbrev delivery : ℕ → Delivery ℕ
delivery number = record {
  caller = context;
  supported = supported;
  event = event number;
  consumer_id = codes "w";
  apply = some count;
}

-- The third event comes too early, and the first comes twice.
abbrev deliveries : List (Delivery ℕ)
deliveries = delivery 1 ∷ delivery 3 ∷ delivery 1 ∷ delivery 2 ∷ []

abbrev stream : Stream
stream = stream_of (event 1) (codes "w")

deliver_all_in_order_example :
    let (rs, t) = deliver_all deliveries store in
    (numbers_taken stream rs
      ≡ count_from (last_of stream store + 1) (length (numbers_taken stream rs)))
    × (last_of stream t ≡ last_of stream store + length (numbers_taken stream rs))
deliver_all_in_order_example = deliver_all_in_order deliveries store stream

deliver_all_data_example :
    let (rs, t) = deliver_all deliveries store in data_taken rs 0 ≡ some t.domain
deliver_all_data_example = deliver_all_data deliveries store

event-accepted : event_envelope (event 1) ≡ ok (event 1)
unfolding event_envelope strip strip_by lstrip_by
event-accepted = refl

event-HasUuids : HasUuids (event 1)
event-HasUuids = record {
  event = omega arith;
  workspace = omega arith;
  aggregate = omega arith;
  actor = omega arith;
  causation = tt;
  delegation = tt;
}

deserialize_event-serialize_event_example :
    deserialize_event context (serialize_event context (event 1)) ≡ ok (event 1)
deserialize_event-serialize_event_example =
    deserialize_event-serialize_event context (event 1) event-accepted event-HasUuids refl

-- The store behind an event whose callback raised.
abbrev poisoned : MessagingStore ℕ
poisoned = (consume context supported (event 1) (codes "w") (some (λ n. none)) store).1

replay_run :
    replay context supported 40 8 false poisoned
    ≡ (ok ConsumerResult.processed, (replay context supported 40 8 false poisoned).1)
unfolding replay replay_quarantined mark_processed finish_replay get_quarantine get_inbox
    save_quarantine save_inbox quarantine_event add_quarantine write uuid4 add_audit audit_taken
    quarantine_claimed consume consume_known consume_next run_apply claim_inbox
    lock_consumer_sequence save_sequence require_workspace Repository.require_workspace context_eq
    safe_payload digest_of dumps contains find update ◌>>=◌ text_eq str_uuid decimal serialize_event
    deserialize_event parse_uuid remove event_envelope strip
replay_run = refl

replay-Replayed_example :
    (8 ≡ caller.actor.authorization_decision_id)
    × (q : EventQuarantine) × (find (is_quarantine 1 40) poisoned.quarantines ≡ some q)
    × (q.status ≡ QuarantineStatus.quarantined)
    × (e : EventEnvelope) × (deserialize_event context q.event_payload ≡ ok e)
    × Replayed e q.consumer_id poisoned
        (replay context supported 40 8 false poisoned).1
        ConsumerResult.processed
replay-Replayed_example =
    replay-Replayed context supported 40 8 poisoned {r = ConsumerResult.processed}
      {t = (replay context supported 40 8 false poisoned).1} replay_run

poison_run :
    consume context supported (event 1) (codes "w") (some (λ n. none)) store
    ≡ (ok ConsumerResult.quarantined, poisoned)
unfolding consume consume_known consume_next run_apply claim_inbox lock_consumer_sequence
    save_sequence quarantine_event quarantine_claimed add_quarantine get_inbox save_inbox uuid4
    require_workspace Repository.require_workspace context_eq safe_payload digest_of dumps contains
    find update ◌>>=◌ text_eq
poison_run = refl

consume-deserialize_event_example :
    (q : EventQuarantine) × (poisoned.quarantines ≡ [] ++ (q ∷ []))
    × (deserialize_event context q.event_payload ≡ ok (event 1))
consume-deserialize_event_example =
    consume-deserialize_event context supported (event 1) (codes "w") (some (λ n. none)) store
      {r = ConsumerResult.quarantined} {t = poisoned} poison_run (inr refl) event-accepted
      event-HasUuids refl
