-- ===== src/Messaging/Consumer.antt =====
-- `EventConsumerService` of app/messaging/service.py.
use wanderra_os.Base.{ℕ, ◌+◌, Bool, true, false, not, Option, none, some, ◌==◌, ltb, if◌then◌else◌}
use wanderra_os.Base.Text.{Text, codes}
use wanderra_os.Base.Json.{end, field, string, str_uuid}
use wanderra_os.Base.Action.{◌>>=◌, ◌>>◌, pure, raise_if, gets, modify, lift, some_or}
use wanderra_os.Messaging.Contracts.{
  MessagingFailure, ConsumerResult, EventEnvelope, safe_payload, payload_digest_of,
}
use wanderra_os.Messaging.Models.{
  InboxStatus, ConsumerSequence, QuarantineReason, QuarantineStatus, EventQuarantine,
  MessagingContext,
}
use wanderra_os.Messaging.Repository.{
  MessagingAction, uuid4, claim_inbox, lock_consumer_sequence, add_quarantine, get_quarantine,
  get_inbox, save_sequence, save_inbox, save_quarantine,
}
use wanderra_os.Messaging.Audit.{write}
use wanderra_os.Messaging.Envelopes.{serialize_event, deserialize_event}

-- `recognized == event.schema_major`
abbrev pub is_recognized : Option ℕ → ℕ → Bool
is_recognized none major = false
is_recognized (some n) major = n == major

abbrev pub result_of : QuarantineReason → ConsumerResult
result_of QuarantineReason.sequence_gap = ConsumerResult.gap
result_of _ = ConsumerResult.quarantined

abbrev pub is_quarantined : QuarantineStatus → Bool
is_quarantined QuarantineStatus.quarantined = true
is_quarantined QuarantineStatus.replayed = false

-- The callback that applies an event to the consumer's own data, or raises.
abbrev pub Apply : Type 0 → Type 0
Apply D = Option (D → Option D)

module _ {D : Type 0} (m : MessagingContext) where
  -- `_add_quarantine`
  unfoldable pub quarantine_event :
      EventEnvelope → Text → QuarantineReason → Option ℕ → Text → MessagingAction D ConsumerResult
  quarantine_event event consumer_id reason expected_sequence payload_digest = do
    id ← uuid4 m
    add_quarantine m (record {
      workspace_id = event.workspace_id;
      id = id;
      consumer_id = consumer_id;
      event_id = event.event_id;
      reason = reason;
      expected_sequence = expected_sequence;
      observed_sequence = event.aggregate_sequence;
      event_payload = serialize_event m event;
      payload_digest = payload_digest;
      status = QuarantineStatus.quarantined;
      replayed_at = none;
      replayed_by = none;
      replay_decision_id = none;
    })
    pure (result_of reason)

  -- `_quarantine`
  unfoldable pub quarantine :
      EventEnvelope → Text → QuarantineReason → Option ℕ → Text → MessagingAction D ConsumerResult
  unfolding quarantine_event
  quarantine event consumer_id reason expected_sequence payload_digest = do
    claimed ← claim_inbox m event consumer_id InboxStatus.quarantined payload_digest
    if not claimed
        then pure ConsumerResult.duplicate
        else quarantine_event event consumer_id reason expected_sequence payload_digest

  -- `_quarantine_claimed`
  unfoldable pub quarantine_claimed :
      EventEnvelope → Text → QuarantineReason → ℕ → Text → MessagingAction D ConsumerResult
  unfolding quarantine_event
  quarantine_claimed event consumer_id reason expected_sequence payload_digest = do
    found ← get_inbox m event.workspace_id consumer_id event.event_id
    inbox ← some_or found MessagingFailure.assertion_failed
    save_inbox (record inbox { status = InboxStatus.quarantined })
    quarantine_event event consumer_id reason (some expected_sequence) payload_digest

  -- `await apply()` inside `begin_nested`: whether it returned, and what it wrote if it did.
  unfoldable pub run_apply : Apply D → MessagingAction D Bool
  run_apply none = pure true
  run_apply (some apply) = do
    before ← gets (λ s. s.domain)
    elim (apply before) [
      | none ↦ pure false
      | some after ↦ do modify (λ s. record s { domain = after }); pure true
    ]

  -- The inbox row of a replayed event.
  unfoldable pub mark_processed : EventEnvelope → Text → MessagingAction D (Unit {0})
  mark_processed event consumer_id = do
    found ← get_inbox m event.workspace_id consumer_id event.event_id
    inbox ← some_or found MessagingFailure.assertion_failed
    save_inbox (record inbox { status = InboxStatus.processed })

  -- The quarantine row of a replayed event, and the audit row.
  unfoldable pub finish_replay :
      EventQuarantine → ℕ → EventEnvelope → MessagingAction D ConsumerResult
  finish_replay r authorization_decision_id event = do
    save_quarantine (record r {
      status = QuarantineStatus.replayed;
      replayed_at = some m.clock;
      replayed_by = some m.context.actor.actor_id;
      replay_decision_id = some authorization_decision_id;
    })
    _ ← write m (record {
      action = codes "event.replayed";
      target_type = codes "event_quarantine";
      target_id = r.id;
      outcome = codes "success";
      decision_id = some authorization_decision_id;
      classification = codes "internal";
      details = some (field (codes "event_id") (string (str_uuid event.event_id)) end);
    })
    pure ConsumerResult.processed

  -- `supported_schemas.get`
  module _ (supported_schemas : Text → Option ℕ) where
    -- `consume` behind the check of the sequence.
    unfoldable pub consume_next :
        EventEnvelope → Text → Apply D → Text → ConsumerSequence → MessagingAction D ConsumerResult
    unfolding quarantine_claimed run_apply
    consume_next event consumer_id apply payload_digest sequence = do
      claimed ← claim_inbox m event consumer_id InboxStatus.processed payload_digest
      if not claimed then pure ConsumerResult.duplicate else do
        applied ← run_apply apply
        if not applied
            then quarantine_claimed event consumer_id QuarantineReason.poison_message
                (sequence.last_sequence + 1) payload_digest
            else do
              save_sequence (record sequence { last_sequence = event.aggregate_sequence })
              pure ConsumerResult.processed

    -- `consume` behind the check of the schema.
    unfoldable pub consume_known :
        EventEnvelope → Text → Apply D → Text → MessagingAction D ConsumerResult
    unfolding consume_next quarantine
    consume_known event consumer_id apply payload_digest = do
      sequence ← lock_consumer_sequence m event consumer_id
      let expected = sequence.last_sequence + 1
      if not (event.aggregate_sequence == expected)
          then quarantine event consumer_id
              (if ltb expected event.aggregate_sequence
                then QuarantineReason.sequence_gap
                else QuarantineReason.stale_sequence)
              (some expected) payload_digest
          else consume_next event consumer_id apply payload_digest sequence

    -- `consume`
    unfoldable pub consume : EventEnvelope → Text → Apply D → MessagingAction D ConsumerResult
    unfolding consume_known quarantine
    consume event consumer_id apply = do
      raise_if (not (event.workspace_id == m.context.tenant.workspace_id))
          MessagingFailure.workspace_differs
      payload ← lift (safe_payload event.payload)
      payload_digest ← lift (payload_digest_of m.sha256 payload)
      if not (is_recognized (supported_schemas event.event_type) event.schema_major)
          then quarantine event consumer_id QuarantineReason.unknown_schema none payload_digest
          else consume_known event consumer_id apply payload_digest

    -- `replay` behind `dry_run`.
    unfoldable pub replay_quarantined : EventQuarantine → ℕ → MessagingAction D ConsumerResult
    unfolding mark_processed finish_replay
    replay_quarantined r authorization_decision_id = do
      event ← lift (deserialize_event m r.event_payload)
      raise_if (not (is_recognized (supported_schemas event.event_type) event.schema_major))
          MessagingFailure.schema_unsupported
      sequence ← lock_consumer_sequence m event r.consumer_id
      raise_if (not (event.aggregate_sequence == sequence.last_sequence + 1))
          MessagingFailure.gap_unresolved
      mark_processed event r.consumer_id
      save_sequence (record sequence { last_sequence = event.aggregate_sequence })
      finish_replay r authorization_decision_id event

    -- `replay`
    unfoldable pub replay : ℕ → ℕ → Bool → MessagingAction D ConsumerResult
    unfolding replay_quarantined
    replay quarantine_id authorization_decision_id is_dry_run = do
      raise_if (not (authorization_decision_id == m.context.actor.authorization_decision_id))
          MessagingFailure.replay_unauthorized
      found ← get_quarantine m m.context.tenant.workspace_id quarantine_id
      r ← some_or found MessagingFailure.quarantine_unavailable
      raise_if (not (is_quarantined r.status)) MessagingFailure.quarantine_unavailable
      if is_dry_run
          then pure ConsumerResult.dry_run
          else replay_quarantined r authorization_decision_id
