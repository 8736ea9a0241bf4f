-- ===== src/Messaging/Unstored.antt =====
-- `EventConsumerService` of app/messaging/service.py: the calls that leave the quarantine as it is,
-- and the one that adds a row to it.
use wanderra_os.Base.{
  ℕ, ◌≡◌, refl, sym, ap, subst, ◌∙◌, Bool, true, false, Option, none, some, List, [], ◌∷◌, ◌++◌,
}
use wanderra_os.Base.Text.{Text}
use wanderra_os.Base.Result.{ok}
use wanderra_os.Base.Action.{◌>>◌, pure, bind-inv, guard-inv, gets-pass, modify}
use wanderra_os.Base.Post.{
  Post, Any, Returned, bind, return, reading, writing, lifting, requiring, weaken,
}
use wanderra_os.Messaging.Contracts.{MessagingFailure, ConsumerResult, EventEnvelope}
use wanderra_os.Messaging.Models.{
  InboxStatus, InboxEvent, ConsumerSequence, EventQuarantine, MessagingStore, MessagingContext,
}
use wanderra_os.Messaging.Repository.{
  MessagingAction, uuid4, require_workspace, claim_inbox, lock_consumer_sequence, add_quarantine,
  get_inbox, save_sequence, save_inbox,
}
use wanderra_os.Messaging.Consumer.{Apply, run_apply}
use wanderra_os.Messaging.Consumption.{require_workspace-inv}

module _ {D : Type 0} (m : MessagingContext) where
  module _ (rows : List EventQuarantine) where
    abbrev pub Framed : MessagingStore D → Type 0
    Framed s = s.quarantines ≡ rows

    pub uuid4-Framed : Post Framed Any (uuid4 m)
    unfolding uuid4
    uuid4-Framed =
        bind (reading {Q = Any} _ (λ _ _. tt))
          (λ n _. bind (writing _ (λ s h. h)) (λ _ _. return _ tt))

    require_workspace-Framed : (id : ℕ) → Post Framed Any (require_workspace m id)
    unfolding require_workspace
    require_workspace-Framed id =
        bind (reading {Q = Any} _ (λ _ _. tt)) (λ _ _. weaken (λ _ _. tt) (lifting _))

    pub claim_inbox-Framed :
        (e : EventEnvelope) (consumer_id : Text) (status : InboxStatus) (digest : Text)
        → Post Framed Any (claim_inbox m e consumer_id status digest)
    unfolding claim_inbox
    claim_inbox-Framed e consumer_id status digest =
        bind (require_workspace-Framed e.workspace_id) (λ _ _.
          bind (reading {Q = Any} _ (λ _ _. tt))
            (λ _ _. bind (writing _ (λ s h. h)) (λ _ _. return _ tt)))

    pub lock-Framed :
        (e : EventEnvelope) (consumer_id : Text)
        → Post Framed Any (lock_consumer_sequence m e consumer_id)
    unfolding lock_consumer_sequence
    lock-Framed e consumer_id = bind (require_workspace-Framed e.workspace_id) (λ _ _.
        bind (writing _ (λ s h. h)) (λ _ _.
          bind (reading {Q = Any} _ (λ _ _. tt))
            (λ found _. weaken (λ _ _. tt) (requiring found _))))

    pub get_inbox-Framed :
        (w : ℕ) (consumer_id : Text) (id : ℕ) → Post Framed Any (get_inbox m w consumer_id id)
    unfolding get_inbox
    get_inbox-Framed w consumer_id id =
        bind (require_workspace-Framed w) (λ _ _. reading {Q = Any} _ (λ _ _. tt))

    pub save_inbox-Framed : (r : InboxEvent) → Post Framed Any (save_inbox r)
    unfolding save_inbox
    save_inbox-Framed r = writing _ (λ s h. h)

    pub saved-Framed :
        (r : ConsumerSequence)
        → Post Framed
            (λ x. x ≡ ConsumerResult.processed)
            (save_sequence r >> pure ConsumerResult.processed)
    unfolding save_sequence
    saved-Framed r = bind (writing _ (λ s h. h)) (λ _ _. return _ refl)

    pub run_apply-Framed : (apply : Apply D) → Post Framed Any (run_apply m apply)
    unfolding run_apply
    run_apply-Framed none = return _ tt
    run_apply-Framed (some f) =
        bind (reading {Q = Any} _ (λ _ _. tt)) (λ before _. outcome (f before))
      where
        outcome :
            (o : Option D)
            → Post {E = MessagingFailure} Framed Any (elim o as (λ _. MessagingAction D Bool) [
              | none ↦ pure false
              | some after ↦ modify (λ s. record s { domain = after }) >> pure true
            ])
        outcome none = return _ tt
        outcome (some after) = bind (writing _ (λ s h. h)) (λ _ _. return _ tt)

  pub kept :
      {A : Type 0} {Q : A → Type 0} (s : MessagingStore D) {run : MessagingAction D A}
      → Post (Framed s.quarantines) Q run
      → {a : A} {t : MessagingStore D} → run s ≡ (ok a, t)
      → (t.quarantines ≡ s.quarantines) × Q a
  kept {A} {Q} s p e = subst (λ x. Framed s.quarantines x.1 × Returned Q x.0) e (p.run s refl)

  modified :
      (q : EventQuarantine) (s : MessagingStore D) {t : MessagingStore D}
      → modify {E = MessagingFailure}
          (λ (x : MessagingStore D). record x { quarantines = x.quarantines ++ (q ∷ []) })
          s
        ≡ (ok tt, t)
      → t.quarantines ≡ s.quarantines ++ (q ∷ [])
  unfolding modify
  modified q s h = ap (λ x. x.1.quarantines) (sym h)

  pub add_quarantine-inv :
      (q : EventQuarantine) (s : MessagingStore D) {t : MessagingStore D}
      → add_quarantine m q s ≡ (ok tt, t)
      → t.quarantines ≡ s.quarantines ++ (q ∷ [])
  unfolding add_quarantine
  add_quarantine-inv q s {t} h =
      let (u, s1, passed, h1) = bind-inv _ _ s h in
      let same = require_workspace-inv m q.workspace_id s passed in
      let (new, h2) = guard-inv _ _ _ s1 (sym (gets-pass _ _ s1) ∙ h1) in
      modified q s1 h2 ∙ ap (λ (x : MessagingStore D). x.quarantines ++ (q ∷ [])) same
