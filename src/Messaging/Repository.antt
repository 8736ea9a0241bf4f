-- ===== src/Messaging/Repository.antt =====
-- app/messaging/repository.py: the inserts that do nothing on a conflict, the locked rows, and the
-- quarantine; with the inserts of audit and outbox rows, and writes to loaded rows.
use wanderra_os.Base.{
  ℕ, suc, Bool, not, ◌&&◌, ◌||◌, Option, none, List, [], ◌∷◌, ◌++◌, any, ◌==◌, is_some,
  if◌then◌else◌,
}
use wanderra_os.Base.Text.{Text, text_eq}
use wanderra_os.Base.Table.{find, update}
use wanderra_os.Base.Result.{Result, ok, err}
use wanderra_os.Base.Action.{Action, ◌>>=◌, ◌>>◌, pure, raise_if, gets, modify, lift, some_or}
use wanderra_os.Tenancy.Models.{AuditEvent, OutboxEvent, audit_taken, outbox_taken}
use wanderra_os.ExecutionContext.Contracts.{ContextFailure}
use wanderra_os.ExecutionContext.Repository
use wanderra_os.Messaging.Contracts.{
  MessagingFailure, CommandEnvelope, EventEnvelope, request_digest,
}
use wanderra_os.Messaging.Models.{
  CommandStatus, CommandIdempotency, AggregateVersion, InboxStatus, InboxEvent, ConsumerSequence,
  EventQuarantine, MessagingStore, MessagingContext,
}

abbrev pub MessagingAction : Type 0 → Type 0 → Type 0
MessagingAction D = Action (MessagingStore D) MessagingFailure

-- `insert(…).on_conflict_do_nothing()` of a row into a table without one that has its key.
abbrev pub insert_new {ℓ} : {A : Type ℓ} → (A → Bool) → A → List A → List A
insert_new same row rows = if is_some (find same rows) then rows else rows ++ (row ∷ [])

-- The primary keys.
abbrev pub is_command : CommandEnvelope → CommandIdempotency → Bool
is_command c r =
    (r.workspace_id == c.workspace_id)
    && (r.actor_id == c.actor_id)
    && text_eq r.command_type c.command_type
    && text_eq r.idempotency_key c.idempotency_key

abbrev pub is_aggregate : ℕ → Text → ℕ → AggregateVersion → Bool
is_aggregate workspace_id aggregate_type aggregate_id r =
    (r.workspace_id == workspace_id)
    && text_eq r.aggregate_type aggregate_type
    && (r.aggregate_id == aggregate_id)

abbrev pub is_inbox : ℕ → Text → ℕ → InboxEvent → Bool
is_inbox workspace_id consumer_id event_id r =
    (r.workspace_id == workspace_id)
    && text_eq r.consumer_id consumer_id
    && (r.event_id == event_id)

abbrev pub is_sequence : ℕ → Text → Text → ℕ → ConsumerSequence → Bool
is_sequence workspace_id consumer_id aggregate_type aggregate_id r =
    (r.workspace_id == workspace_id)
    && text_eq r.consumer_id consumer_id
    && text_eq r.aggregate_type aggregate_type
    && (r.aggregate_id == aggregate_id)

abbrev pub is_quarantine : ℕ → ℕ → EventQuarantine → Bool
is_quarantine workspace_id quarantine_id r =
    (r.workspace_id == workspace_id) && (r.id == quarantine_id)

-- `pk_event_quarantine` and `uq_event_quarantine_consumer_event`
abbrev pub same_quarantine : EventQuarantine → EventQuarantine → Bool
same_quarantine r x =
    (x.workspace_id == r.workspace_id)
    && ((x.id == r.id) || (text_eq x.consumer_id r.consumer_id && (x.event_id == r.event_id)))

abbrev context_checked : Result ContextFailure (Unit {0}) → Result MessagingFailure (Unit {0})
context_checked (ok _) = ok tt
context_checked (err e) = err (MessagingFailure.context_refused e)

-- The values that `claim_command` inserts.
abbrev pub started_command : CommandEnvelope → Text → CommandIdempotency
started_command command digest = record {
  workspace_id = command.workspace_id;
  actor_id = command.actor_id;
  command_type = command.command_type;
  idempotency_key = command.idempotency_key;
  request_digest = digest;
  status = CommandStatus.started;
  outcome_event_id = none;
  aggregate_version = none;
  correlation_id = command.correlation_id;
  completed_at = none;
}

module _ {D : Type 0} (m : MessagingContext) where
  -- `uuid.uuid4()`
  unfoldable pub uuid4 : MessagingAction D ℕ
  uuid4 = do n ← gets (λ s. s.draws); modify (λ s. record s { draws = suc n }); pure (m.fresh n)

  unfoldable pub require_workspace : ℕ → MessagingAction D (Unit {0})
  require_workspace workspace_id = do
    bound ← gets (λ s. s.bound)
    lift (context_checked (Repository.require_workspace bound m.context workspace_id))

  -- `claim_command` with the digest of the command.
  unfoldable pub claim_keyed :
      CommandEnvelope → Text → MessagingAction D (CommandIdempotency × Bool)
  claim_keyed command digest = do
    let row = started_command command digest
    existing ← gets (λ s. find (is_command command) s.commands)
    modify (λ s. record s { commands = insert_new (is_command command) row s.commands })
    found ← gets (λ s. find (is_command command) s.commands)
    locked ← some_or found MessagingFailure.assertion_failed
    pure (locked, not (is_some existing))

  unfoldable pub claim_command : CommandEnvelope → MessagingAction D (CommandIdempotency × Bool)
  unfolding require_workspace claim_keyed
  claim_command command = do
    require_workspace command.workspace_id
    digest ← lift (request_digest m.sha256 command)
    claim_keyed command digest

  unfoldable pub lock_aggregate : ℕ → Text → ℕ → MessagingAction D AggregateVersion
  unfolding require_workspace
  lock_aggregate workspace_id aggregate_type aggregate_id = do
    require_workspace workspace_id
    let row : AggregateVersion = record {
      workspace_id = workspace_id;
      aggregate_type = aggregate_type;
      aggregate_id = aggregate_id;
      version = 0;
    }
    let same = is_aggregate workspace_id aggregate_type aggregate_id
    modify (λ s. record s { aggregates = insert_new same row s.aggregates })
    found ← gets (λ s. find same s.aggregates)
    some_or found MessagingFailure.assertion_failed

  unfoldable pub claim_inbox : EventEnvelope → Text → InboxStatus → Text → MessagingAction D Bool
  unfolding require_workspace
  claim_inbox event consumer_id status payload_digest = do
    require_workspace event.workspace_id
    let row : InboxEvent = record {
      workspace_id = event.workspace_id;
      consumer_id = consumer_id;
      event_id = event.event_id;
      event_type = event.event_type;
      schema_major = event.schema_major;
      schema_minor = event.schema_minor;
      aggregate_type = event.aggregate_type;
      aggregate_id = event.aggregate_id;
      aggregate_sequence = event.aggregate_sequence;
      status = status;
      payload_digest = payload_digest;
    }
    let same = is_inbox event.workspace_id consumer_id event.event_id
    existing ← gets (λ s. find same s.inbox)
    modify (λ s. record s { inbox = insert_new same row s.inbox })
    pure (not (is_some existing))

  unfoldable pub lock_consumer_sequence : EventEnvelope → Text → MessagingAction D ConsumerSequence
  unfolding require_workspace
  lock_consumer_sequence event consumer_id = do
    require_workspace event.workspace_id
    let row : ConsumerSequence = record {
      workspace_id = event.workspace_id;
      consumer_id = consumer_id;
      aggregate_type = event.aggregate_type;
      aggregate_id = event.aggregate_id;
      last_sequence = 0;
    }
    let same = is_sequence event.workspace_id consumer_id event.aggregate_type event.aggregate_id
    modify (λ s. record s { sequences = insert_new same row s.sequences })
    found ← gets (λ s. find same s.sequences)
    some_or found MessagingFailure.assertion_failed

  unfoldable pub add_quarantine : EventQuarantine → MessagingAction D (Unit {0})
  unfolding require_workspace
  add_quarantine r = do
    require_workspace r.workspace_id
    raise_if (any (same_quarantine r) (← gets (λ s. s.quarantines)))
        MessagingFailure.constraint_violated
    modify (λ s. record s { quarantines = s.quarantines ++ (r ∷ []) })

  unfoldable pub get_quarantine : ℕ → ℕ → MessagingAction D (Option EventQuarantine)
  unfolding require_workspace
  get_quarantine workspace_id quarantine_id = do
    require_workspace workspace_id
    gets (λ s. find (is_quarantine workspace_id quarantine_id) s.quarantines)

  unfoldable pub get_inbox : ℕ → Text → ℕ → MessagingAction D (Option InboxEvent)
  unfolding require_workspace
  get_inbox workspace_id consumer_id event_id = do
    require_workspace workspace_id
    gets (λ s. find (is_inbox workspace_id consumer_id event_id) s.inbox)

-- Assignments to loaded rows.
module _ {D : Type 0} where
  unfoldable pub save_aggregate : AggregateVersion → MessagingAction D (Unit {0})
  save_aggregate r = modify (λ s. record s {
    aggregates =
        update (is_aggregate r.workspace_id r.aggregate_type r.aggregate_id) (λ _. r) s.aggregates;
  })

  unfoldable pub save_sequence : ConsumerSequence → MessagingAction D (Unit {0})
  save_sequence r = modify (λ s. record s {
    sequences =
        update (is_sequence r.workspace_id r.consumer_id r.aggregate_type r.aggregate_id) (λ _. r)
          s.sequences;
  })

  unfoldable pub save_inbox : InboxEvent → MessagingAction D (Unit {0})
  save_inbox r = modify (λ s. record s {
    inbox = update (is_inbox r.workspace_id r.consumer_id r.event_id) (λ _. r) s.inbox;
  })

  unfoldable pub save_quarantine : EventQuarantine → MessagingAction D (Unit {0})
  save_quarantine r = modify (λ s. record s {
    quarantines = update (is_quarantine r.workspace_id r.id) (λ _. r) s.quarantines;
  })

  -- `command` has the key of the row.
  unfoldable pub save_command : CommandEnvelope → CommandIdempotency → MessagingAction D (Unit {0})
  save_command command r =
      modify (λ s. record s { commands = update (is_command command) (λ _. r) s.commands })

  unfoldable pub add_audit : AuditEvent → MessagingAction D (Unit {0})
  add_audit r = do
    raise_if (audit_taken r (← gets (λ s. s.audit))) MessagingFailure.constraint_violated
    modify (λ s. record s { audit = s.audit ++ (r ∷ []) })

  unfoldable pub add_outbox : OutboxEvent → MessagingAction D (Unit {0})
  add_outbox r = do
    raise_if (outbox_taken r (← gets (λ s. s.outbox))) MessagingFailure.constraint_violated
    modify (λ s. record s { outbox = s.outbox ++ (r ∷ []) })
