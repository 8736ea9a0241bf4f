-- ===== src/Messaging/Idempotence.antt =====
-- `record` of app/messaging/service.py: a command's key answers every later call.
use wanderra_os.Base.{
  ℕ, ◌+◌, ◌≡◌, refl, sym, ap, subst, ◌∙◌, Bool, true, false, not, Option, some, List, is_some,
  arith, Option-cases, inl, inr,
}
use wanderra_os.Base.Text.{Text, text_eq_refl}
use wanderra_os.Base.Table.{find, find-test, find-append_last, find-update_self}
use wanderra_os.Base.Result.{ok}
use wanderra_os.Base.Action.{
  ◌>>=◌, ◌>>◌, pure, bind-inv, lift-inv, some-inv, gets-pass, modify-pass, pure-inv,
}
use wanderra_os.Base.Post.{
  Post, Any, bind, return, guarding, reading, writing, lifting, requiring, weaken, Returned,
}
use wanderra_os.Base.Json.{Fields}
use wanderra_os.Jobs.Contracts.{Instant}
use wanderra_os.ExecutionContext.Contracts.{ExecutionContext}
use wanderra_os.Tenancy.Models.{OutboxEvent}
use wanderra_os.Messaging.Contracts.{CommandEnvelope, CommandResult, AuditInput, request_digest}
use wanderra_os.Messaging.Models.{
  CommandStatus, CommandIdempotency, AggregateVersion, MessagingStore, MessagingContext,
}
use wanderra_os.Messaging.Repository.{
  MessagingAction, is_command, insert_new, started_command, uuid4, require_workspace, claim_keyed,
  claim_command, lock_aggregate, save_aggregate, save_command, add_audit, add_outbox,
}
use wanderra_os.Messaging.Audit.{write}
use wanderra_os.Messaging.Commands.{EventDraft, now_or, publish, record_claimed}

-- The keys of commands and the bound context are the given ones.
abbrev Framed :
    {D : Type 0} → List CommandIdempotency → Option ExecutionContext → MessagingStore D → Type 0
Framed rows b s = (s.commands ≡ rows) × (s.bound ≡ b)

module _ {D : Type 0} (m : MessagingContext) (rows : List CommandIdempotency)
    (b : Option ExecutionContext) where
  abbrev Keeps : {A : Type 0} → (A → Type 0) → MessagingAction D A → Type 0
  Keeps Q run = Post (Framed rows b) Q run

  uuid4-Keeps : Keeps Any (uuid4 m)
  unfolding uuid4
  uuid4-Keeps =
      bind (reading {Q = Any} _ (λ _ _. tt))
        (λ n _. bind (writing _ (λ s h. h)) (λ _ _. return _ tt))

  require_workspace-Keeps : (id : ℕ) → Keeps Any (require_workspace m id)
  unfolding require_workspace
  require_workspace-Keeps id =
      bind (reading {Q = Any} _ (λ _ _. tt)) (λ _ _. weaken (λ _ _. tt) (lifting _))

  lock_aggregate-Keeps : (w : ℕ) (t : Text) (id : ℕ) → Keeps Any (lock_aggregate m w t id)
  unfolding lock_aggregate
  lock_aggregate-Keeps w t id = bind (require_workspace-Keeps w) (λ _ _.
      bind (writing _ (λ s h. h)) (λ _ _.
        bind (reading {Q = Any} _ (λ _ _. tt)) (λ found _. weaken (λ _ _. tt) (requiring found _))))

  save_aggregate-Keeps : (r : AggregateVersion) → Keeps Any (save_aggregate r)
  unfolding save_aggregate
  save_aggregate-Keeps r = writing _ (λ s h. h)

  write-Keeps : (a : AuditInput) → Keeps Any (write m a)
  unfolding write add_audit
  write-Keeps a = bind (lifting _) (λ _ _. bind uuid4-Keeps (λ _ _.
      bind
        (bind (reading {Q = Any} _ (λ _ _. tt))
          (λ _ _. bind (guarding _ _) (λ _ _. writing _ (λ s h. h))))
        (λ _ _. return _ tt)))

  add_outbox-Keeps : (r : OutboxEvent) → Keeps Any (add_outbox r)
  unfolding add_outbox
  add_outbox-Keeps r =
      bind (reading {Q = Any} _ (λ _ _. tt))
        (λ _ _. bind (guarding _ _) (λ _ _. writing _ (λ s h. h)))

module _ {D : Type 0} (m : MessagingContext) (rows : List CommandIdempotency)
    (b : Option ExecutionContext) where
  publish-Keeps :
      (c : CommandEnvelope) (draft : EventDraft) (payload : Fields) (now : Option Instant)
      → Keeps {D = D} m rows b (λ x. x.1 ≡ c.expected_version + 1) (publish m c draft payload now)
  unfolding publish
  publish-Keeps c draft payload now =
      bind (lock_aggregate-Keeps m rows b c.workspace_id c.aggregate_type c.aggregate_id)
        (λ found _. bind (guarding _ _) (λ _ current. bind (save_aggregate-Keeps m rows b _) (λ _ _.
          bind (uuid4-Keeps m rows b) (λ id _. bind (write-Keeps m rows b _) (λ _ _.
            bind (lifting _) (λ digest _.
              bind (add_outbox-Keeps m rows b _) (λ _ _. return _ (ground (arith, current)))))))))

started-is_command :
    (c : CommandEnvelope) (digest : Text) → is_command c (started_command c digest) ≡ true
started-is_command c digest =
    rw (text_eq_refl c.command_type, text_eq_refl c.idempotency_key) (ground arith)

-- The row that is found behind an insert without a conflict is the new one.
new_row :
    (c : CommandEnvelope) (row : CommandIdempotency) (rows : List CommandIdempotency)
    {locked : CommandIdempotency}
    → is_command c row ≡ true
    → not (is_some (find (is_command c) rows)) ≡ true
    → find (is_command c) (insert_new (is_command c) row rows) ≡ some locked
    → locked ≡ row
new_row c row rows {locked} here new found = elim (Option-cases (find (is_command c) rows)) [
  | inr (r, there) ↦ absurd (let bad = rw there at new in cc)
  | inl nothing ↦
      let last = find-append_last (is_command c) row rows nothing here in
      let got = rw nothing at found in cc
]

-- The row of a command's key holds the command's digest and the result.
pub record IsAnswered {D : Type 0} (m : MessagingContext) (c : CommandEnvelope)
    (result : CommandResult) (s : MessagingStore D) : Type 0 where
  pub row : CommandIdempotency
  pub found : find (is_command c) s.commands ≡ some row
  pub same_digest : request_digest m.sha256 c ≡ ok row.request_digest
  pub done : row.status ≡ CommandStatus.completed
  pub event : row.outcome_event_id ≡ some result.event_id
  pub version : row.aggregate_version ≡ some result.aggregate_version

module _ {D : Type 0} (m : MessagingContext) where
  kept :
      {A : Type 0} {Q : A → Type 0} (s : MessagingStore D) {run : MessagingAction D A}
      → Keeps m s.commands s.bound Q run
      → {a : A} {t : MessagingStore D} → run s ≡ (ok a, t)
      → (t.commands ≡ s.commands) × (t.bound ≡ s.bound) × Q a
  kept {A} {Q} s p e =
      let (frame, value) =
        subst (λ x. Framed s.commands s.bound x.1 × Returned Q x.0) e (p.run s (refl, refl)) in
      (frame.0, frame.1, value)

  -- What a command that was just claimed leaves behind.
  pub record Answers (c : CommandEnvelope) (s : MessagingStore D) (r : CommandResult)
      (t : MessagingStore D) : Type 0 where
    pub answered : IsAnswered m c r t
    pub same_bound : t.bound ≡ s.bound
    pub new : r.replayed ≡ false
    pub next : r.aggregate_version ≡ c.expected_version + 1

  saved-answered :
      (c : CommandEnvelope) (now : Option Instant) (row : CommandIdempotency) (id version : ℕ)
      (s s1 : MessagingStore D) {r : CommandResult} {t : MessagingStore D}
      → find (is_command c) s.commands ≡ some row
      → request_digest m.sha256 c ≡ ok row.request_digest
      → s1.commands ≡ s.commands
      → s1.bound ≡ s.bound
      → version ≡ c.expected_version + 1
      → (save_command c (record row {
        status = CommandStatus.completed;
        outcome_event_id = some id;
        aggregate_version = some version;
        completed_at = some (now_or now m.clock);
      })
            >> pure (record { event_id = id; aggregate_version = version; replayed = false }))
          s1
        ≡ (ok r, t)
      → Answers c s r t
  unfolding save_command
  saved-answered c now row id version s s1 {r} {t} found digest rows bounds next h =
      let (result, stored) = pure-inv _ _ (sym (modify-pass _ _ s1) ∙ h) in
      let done : CommandIdempotency = record row {
        status = CommandStatus.completed;
        outcome_event_id = some id;
        aggregate_version = some version;
        completed_at = some (now_or now m.clock);
      } in
      record {
        answered = record {
          row = done;
          found =
              ap (λ (x : MessagingStore D). find (is_command c) x.commands) (sym stored)
              ∙ find-update_self (is_command c) done s1.commands
                  (ap (find (is_command c)) rows ∙ found)
                  (find-test (is_command c) s.commands found);
          same_digest = digest;
          done = refl;
          event = ap (λ (x : CommandResult). some x.event_id) result;
          version = ap (λ (x : CommandResult). some x.aggregate_version) result;
        };
        same_bound = ap (λ (x : MessagingStore D). x.bound) (sym stored) ∙ bounds;
        new = ap (λ (x : CommandResult). x.replayed) (sym result);
        next = ap (λ (x : CommandResult). x.aggregate_version) (sym result) ∙ next;
      }

  pub claimed-answered :
      (c : CommandEnvelope) (draft : EventDraft) (payload : Fields) (now : Option Instant)
      (row : CommandIdempotency) (s : MessagingStore D) {r : CommandResult} {t : MessagingStore D}
      → find (is_command c) s.commands ≡ some row
      → request_digest m.sha256 c ≡ ok row.request_digest
      → record_claimed m c draft payload now row s ≡ (ok r, t)
      → Answers c s r t
  unfolding record_claimed
  claimed-answered c draft payload now row s found digest h =
      let ((id, version), s1, h1, h2) = bind-inv _ _ s h in
      let (rows, bounds, next) = kept s (publish-Keeps m _ _ c draft payload now) h1 in
      saved-answered c now row id version s s1 found digest rows bounds next h2

  -- A row that `claim_command` has made is found under the command's key, with its digest.
  pub record Claimed (c : CommandEnvelope) (s : MessagingStore D) (row : CommandIdempotency)
      (t : MessagingStore D) : Type 0 where
    pub found : find (is_command c) t.commands ≡ some row
    pub same_digest : request_digest m.sha256 c ≡ ok row.request_digest
    pub same_bound : t.bound ≡ s.bound

  require_workspace-inv :
      (id : ℕ) (s : MessagingStore D) {t : MessagingStore D}
      → require_workspace m id s ≡ (ok tt, t)
      → t ≡ s
  unfolding require_workspace ◌>>=◌
  require_workspace-inv id s e = sym (ap (λ x. x.1) e)

  pub require_workspace-again :
      (id : ℕ) (s t : MessagingStore D) {u : MessagingStore D}
      → require_workspace m id s ≡ (ok tt, u)
      → t.bound ≡ s.bound
      → require_workspace m id t ≡ (ok tt, t)
  unfolding require_workspace ◌>>=◌
  require_workspace-again id s t e same =
      ap (λ b. ((require_workspace {D = D} m id (record t { bound = b })).0, t)) same
      ∙ ap (λ x. (x.0, t)) e

  pub claim-Claimed :
      (c : CommandEnvelope) (s : MessagingStore D) {row : CommandIdempotency} {t : MessagingStore D}
      → claim_command m c s ≡ (ok (row, true), t)
      → Claimed c s row t × (require_workspace m c.workspace_id s ≡ (ok tt, s))
  unfolding claim_command claim_keyed
  claim-Claimed c s {row} {t} h =
      let (u, s1, passed, h1) = bind-inv _ _ s h in
      let same = require_workspace-inv c.workspace_id s passed in
      let (digest, made, h2) = lift-inv _ _ s1 h1 in
      let h3 = sym (modify-pass _ _ s1 ∙ gets-pass _ _ _) ∙ (sym (gets-pass _ _ s1) ∙ h2) in
      let (locked, found, h4) = some-inv _ _ _ _ h3 in
      let (pair, stored) = pure-inv _ _ h4 in
      let is_row = ap (λ (x : CommandIdempotency × Bool). x.0) pair in
      let is_new = ap (λ (x : CommandIdempotency × Bool). x.1) pair in
      let fresh =
        new_row c (started_command c digest) s1.commands (started-is_command c digest) is_new
          found in
      (
        record {
          found =
              ap (λ (x : MessagingStore D). find (is_command c) x.commands) (sym stored)
              ∙ found
              ∙ ap some is_row;
          same_digest =
              made ∙ ap (λ (x : CommandIdempotency). ok x.request_digest) (sym fresh ∙ is_row);
          same_bound =
              ap (λ (x : MessagingStore D). x.bound) (sym stored)
              ∙ ap (λ (x : MessagingStore D). x.bound) same;
        },
        passed ∙ ap (λ x. (ok tt, x)) same,
      )
