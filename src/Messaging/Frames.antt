-- ===== src/Messaging/Frames.antt =====
-- `EventConsumerService` of app/messaging/service.py: the calls that leave the streams and the
-- consumer's data as they are.
use wanderra_os.Base.{ℕ, ◌≡◌, ◌≢◌, refl, Bool, true, false, not, Option, some, List, if◌then◌else◌}
use wanderra_os.Base.Text.{Text}
use wanderra_os.Base.Action.{pure}
use wanderra_os.Base.Post.{
  Post, Any, bind, return, guarding, reading, writing, lifting, requiring, weaken,
}
use wanderra_os.Messaging.Contracts.{ConsumerResult, EventEnvelope, AuditInput}
use wanderra_os.Messaging.Models.{
  InboxStatus, ConsumerSequence, QuarantineReason, EventQuarantine, MessagingStore,
  MessagingContext,
}
use wanderra_os.Messaging.Repository.{
  MessagingAction, uuid4, require_workspace, claim_inbox, add_quarantine, get_quarantine, get_inbox,
  save_inbox, save_quarantine, add_audit,
}
use wanderra_os.Messaging.Audit.{write}
use wanderra_os.Messaging.Consumer.{
  result_of, quarantine_event, quarantine, quarantine_claimed, mark_processed, finish_replay,
}

-- The streams' rows and the data are the given ones.
abbrev pub Framed : {D : Type 0} → List ConsumerSequence → D → MessagingStore D → Type 0
Framed rows d s = (s.sequences ≡ rows) × (s.domain ≡ d)

-- The event was not applied.
abbrev pub IsHeld : ConsumerResult → Type 0
IsHeld r = r ≢ ConsumerResult.processed

result_of-IsHeld : (reason : QuarantineReason) → IsHeld (result_of reason)
result_of-IsHeld QuarantineReason.unknown_schema h = absurd (cc)
result_of-IsHeld QuarantineReason.sequence_gap h = absurd (cc)
result_of-IsHeld QuarantineReason.stale_sequence h = absurd (cc)
result_of-IsHeld QuarantineReason.poison_message h = absurd (cc)

module _ {D : Type 0} (m : MessagingContext) (rows : List ConsumerSequence) (d : D) where
  abbrev pub Keeps : {A : Type 0} → (A → Type 0) → MessagingAction D A → Type 0
  Keeps Q run = Post (Framed rows d) Q run

  uuid4-Keeps : Keeps Any (uuid4 m)
  unfolding uuid4
  uuid4-Keeps =
      bind (reading {Q = Any} _ (λ _ _. tt))
        (λ n _. bind (writing _ (λ s h. h)) (λ _ _. return _ tt))

  pub require_workspace-Keeps : (id : ℕ) → Keeps Any (require_workspace m id)
  unfolding require_workspace
  require_workspace-Keeps id =
      bind (reading {Q = Any} _ (λ _ _. tt)) (λ _ _. weaken (λ _ _. tt) (lifting _))

  pub claim_inbox-Keeps :
      (e : EventEnvelope) (consumer_id : Text) (status : InboxStatus) (digest : Text)
      → Keeps Any (claim_inbox m e consumer_id status digest)
  unfolding claim_inbox
  claim_inbox-Keeps e consumer_id status digest =
      bind (require_workspace-Keeps e.workspace_id) (λ _ _.
        bind (reading {Q = Any} _ (λ _ _. tt))
          (λ _ _. bind (writing _ (λ s h. h)) (λ _ _. return _ tt)))

  add_quarantine-Keeps : (r : EventQuarantine) → Keeps Any (add_quarantine m r)
  unfolding add_quarantine
  add_quarantine-Keeps r = bind (require_workspace-Keeps r.workspace_id) (λ _ _.
      bind (reading {Q = Any} _ (λ _ _. tt))
        (λ _ _. bind (guarding _ _) (λ _ _. writing _ (λ s h. h))))

  quarantine_event-Keeps :
      (e : EventEnvelope) (consumer_id : Text) (reason : QuarantineReason) (expected : Option ℕ)
      (digest : Text)
      → Keeps IsHeld (quarantine_event m e consumer_id reason expected digest)
  unfolding quarantine_event
  quarantine_event-Keeps e consumer_id reason expected digest =
      bind uuid4-Keeps
        (λ id _. bind (add_quarantine-Keeps _) (λ _ _. return _ (result_of-IsHeld reason)))

  pub quarantine-Keeps :
      (e : EventEnvelope) (consumer_id : Text) (reason : QuarantineReason) (expected : Option ℕ)
      (digest : Text)
      → Keeps IsHeld (quarantine m e consumer_id reason expected digest)
  unfolding quarantine
  quarantine-Keeps e consumer_id reason expected digest =
      bind (claim_inbox-Keeps e consumer_id InboxStatus.quarantined digest)
        (λ claimed _. held claimed)
    where
      held :
          (claimed : Bool)
          → Keeps IsHeld (
              if not claimed
              then pure ConsumerResult.duplicate
              else quarantine_event m e consumer_id reason expected digest)
      held false = return _ (λ h. absurd (cc))
      held true = quarantine_event-Keeps e consumer_id reason expected digest

  pub quarantine_claimed-Keeps :
      (e : EventEnvelope) (consumer_id : Text) (reason : QuarantineReason) (expected : ℕ)
      (digest : Text)
      → Keeps IsHeld (quarantine_claimed m e consumer_id reason expected digest)
  unfolding quarantine_claimed get_inbox save_inbox
  quarantine_claimed-Keeps e consumer_id reason expected digest =
      bind (bind (require_workspace-Keeps e.workspace_id) (λ _ _. reading {Q = Any} _ (λ _ _. tt)))
        (λ found _. bind (requiring found _) (λ inbox _.
          bind (writing _ (λ s h. h))
            (λ _ _. quarantine_event-Keeps e consumer_id reason (some expected) digest)))

  pub get_quarantine-Keeps : (w id : ℕ) → Keeps Any (get_quarantine m w id)
  unfolding get_quarantine
  get_quarantine-Keeps w id =
      bind (require_workspace-Keeps w) (λ _ _. reading {Q = Any} _ (λ _ _. tt))

  pub mark_processed-Keeps :
      (e : EventEnvelope) (consumer_id : Text) → Keeps Any (mark_processed m e consumer_id)
  unfolding mark_processed get_inbox save_inbox
  mark_processed-Keeps e consumer_id =
      bind (bind (require_workspace-Keeps e.workspace_id) (λ _ _. reading {Q = Any} _ (λ _ _. tt)))
        (λ found _. bind (requiring found _) (λ inbox _. writing _ (λ s h. h)))

  write-Keeps : (a : AuditInput) → Keeps Any (write m a)
  unfolding write add_audit
  write-Keeps a = bind (lifting _) (λ _ _. bind uuid4-Keeps (λ _ _.
      bind
        (bind (reading {Q = Any} _ (λ _ _. tt))
          (λ _ _. bind (guarding _ _) (λ _ _. writing _ (λ s h. h))))
        (λ _ _. return _ tt)))

  pub finish_replay-Keeps :
      (r : EventQuarantine) (decision : ℕ) (e : EventEnvelope)
      → Keeps (λ x. x ≡ ConsumerResult.processed) (finish_replay m r decision e)
  unfolding finish_replay save_quarantine
  finish_replay-Keeps r decision e =
      bind (writing _ (λ s h. h)) (λ _ _. bind (write-Keeps _) (λ _ _. return _ refl))
