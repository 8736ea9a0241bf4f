-- ===== src/Messaging/Keys.antt =====
-- `record` of app/messaging/service.py, called again under a key that it has answered.
use wanderra_os.Base.{
  ℕ, ◌≡◌, ◌≢◌, refl, sym, ap, ◌∙◌, Bool, true, false, not, Option, none, some, ◌==◌, if◌then◌else◌,
  Bool-cases, inl, inr,
}
use wanderra_os.Base.Text.{Text, text_eq, text_eq_refl, text_eq-eq}
use wanderra_os.Base.Json.{Fields}
use wanderra_os.Base.Table.{find}
use wanderra_os.Base.Result.{ok, err}
use wanderra_os.Base.Action.{
  ◌>>=◌, bind-inv, guard-inv, lift-inv, lift-pass, bind-ok, guard-pass, pure-inv,
}
use wanderra_os.Jobs.Contracts.{Instant}
use wanderra_os.Messaging.Contracts.{
  MessagingFailure, CommandEnvelope, CommandResult, request_digest, safe_payload,
}
use wanderra_os.Messaging.Models.{
  CommandStatus, CommandIdempotency, MessagingStore, MessagingContext,
}
use wanderra_os.Messaging.Repository.{is_command, require_workspace, claim_keyed, claim_command}
use wanderra_os.Messaging.Commands.{
  EventDraft, outcome_of, answer, record_known, record_claimed, record_command,
}
use wanderra_os.Messaging.Idempotence.{
  IsAnswered, Answers, require_workspace-again, claim-Claimed, claimed-answered,
}

module _ {D : Type 0} (m : MessagingContext) where
  keyed-known :
      (c : CommandEnvelope) (s : MessagingStore D) (row : CommandIdempotency) (digest : Text)
      → find (is_command c) s.commands ≡ some row
      → claim_keyed m c digest s ≡ (ok (row, false), s)
  unfolding claim_keyed ◌>>=◌
  keyed-known c s row digest found = rw (found, found) refl

  claim-known :
      (c : CommandEnvelope) (s : MessagingStore D) (row : CommandIdempotency) (digest : Text)
      → require_workspace m c.workspace_id s ≡ (ok tt, s)
      → request_digest m.sha256 c ≡ ok digest
      → find (is_command c) s.commands ≡ some row
      → claim_command m c s ≡ (ok (row, false), s)
  unfolding claim_command
  claim-known c s row digest passes made found =
      bind-ok _ _ passes ∙ lift-pass _ _ s made ∙ keyed-known c s row digest found

  answer-replayed :
      (status : CommandStatus) (event version : Option ℕ) (s : MessagingStore D) {r : CommandResult}
      {t : MessagingStore D}
      → answer m (outcome_of status event version) s ≡ (ok r, t)
      → r.replayed ≡ true
  unfolding ◌>>=◌
  answer-replayed CommandStatus.completed (some event) (some version) s h =
      let (result, stored) = pure-inv _ _ h in ap (λ (x : CommandResult). x.replayed) (sym result)
  answer-replayed CommandStatus.completed (some event) none s h = absurd (cc)
  answer-replayed CommandStatus.completed none version s h = absurd (cc)
  answer-replayed CommandStatus.started event version s h = absurd (cc)

  known-replayed :
      (c : CommandEnvelope) (row : CommandIdempotency) (s : MessagingStore D) {r : CommandResult}
      {t : MessagingStore D}
      → record_known m c row s ≡ (ok r, t)
      → r.replayed ≡ true
  unfolding record_known
  known-replayed c row s h =
      let (digest, made, h1) = lift-inv _ _ s h in
      let (same, h2) = guard-inv _ _ _ s h1 in
      answer-replayed row.status row.outcome_event_id row.aggregate_version s h2

  -- The row of an answered command gives its answer.
  known-answers :
      (c : CommandEnvelope) (s : MessagingStore D) (r : CommandResult) (a : IsAnswered m c r s)
      → record_known m c a.row s ≡ (ok (record r { replayed = true }), s)
  unfolding record_known ◌>>=◌
  known-answers c s r a =
      let same = text_eq_refl a.row.request_digest in
      rw (a.same_digest, same, a.done, a.event, a.version) refl

  known-refused :
      (c : CommandEnvelope) (s : MessagingStore D) (row : CommandIdempotency) (digest : Text)
      → request_digest m.sha256 c ≡ ok digest
      → text_eq row.request_digest digest ≡ false
      → record_known m c row s ≡ (err MessagingFailure.key_reused, s)
  unfolding record_known ◌>>=◌
  known-refused c s row digest made differ = rw (made, differ) refl

  -- The command has passed the checks of `record` before its key is claimed.
  record IsAdmitted (c : CommandEnvelope) (draft : EventDraft) (s : MessagingStore D) : Type 0 where
    here : not (c.workspace_id == m.context.tenant.workspace_id) ≡ false
    own : not (c.actor_id == m.context.actor.actor_id) ≡ false
    payload : Fields
    safe : safe_payload draft.event_payload ≡ ok payload
    passes : require_workspace m c.workspace_id s ≡ (ok tt, s)

  -- `record` of a command whose key has the row.
  record-known :
      (c : CommandEnvelope) (draft : EventDraft) (now : Option Instant) (s : MessagingStore D)
      (row : CommandIdempotency) (digest : Text)
      → IsAdmitted c draft s
      → request_digest m.sha256 c ≡ ok digest
      → find (is_command c) s.commands ≡ some row
      → record_command m c draft now s ≡ record_known m c row s
  unfolding record_command
  record-known c draft now s row digest a made found =
      guard-pass _ _ _ s a.here
      ∙ guard-pass _ _ _ s a.own
      ∙ lift-pass _ _ s a.safe
      ∙ bind-ok _ _ (claim-known c s row digest a.passes made found)

  record-answered :
      (c : CommandEnvelope) (draft : EventDraft) (now : Option Instant) (s : MessagingStore D)
      {r : CommandResult} {t : MessagingStore D}
      → record_command m c draft now s ≡ (ok r, t)
      → r.replayed ≡ false
      → IsAdmitted c draft t × Answers m c s r t
  unfolding record_command
  record-answered c draft now s {r} {t} h new =
      let (here, h1) = guard-inv _ _ _ s h in
      let (own, h2) = guard-inv _ _ _ s h1 in
      let (payload, safe, h3) = lift-inv _ _ s h2 in
      let ((row, created), s1, h4, h5) = bind-inv _ _ s h3 in
      go here own payload safe row created s1 h4 h5
    where
      go :
          not (c.workspace_id == m.context.tenant.workspace_id) ≡ false
          → not (c.actor_id == m.context.actor.actor_id) ≡ false
          → (payload : Fields) → safe_payload draft.event_payload ≡ ok payload
          → (row : CommandIdempotency) (created : Bool) (s1 : MessagingStore D)
          → claim_command m c s ≡ (ok (row, created), s1)
          → (if created then record_claimed m c draft payload now row else record_known m c row) s1
            ≡ (ok r, t)
          → IsAdmitted c draft t × Answers m c s r t
      go here own payload safe row false s1 h4 h5 =
          let old = known-replayed c row s1 h5 in absurd (cc)
      go here own payload safe row true s1 h4 h5 =
          let (claimed, passes) = claim-Claimed m c s h4 in
          let a =
            claimed-answered m c draft payload now row s1 claimed.found claimed.same_digest h5 in
          let bounds = a.same_bound ∙ claimed.same_bound in
          (
            record {
              here = here;
              own = own;
              payload = payload;
              safe = safe;
              passes = require_workspace-again m c.workspace_id s t passes bounds;
            },
            record { answered = a.answered; same_bound = bounds; new = a.new; next = a.next },
          )

  -- If `record` returns for a new key, then the same call again, at any time and in the store that
  -- the first left, returns the same event and version, says that it is a replay, and changes
  -- nothing.
  pub record-record :
      (c : CommandEnvelope) (draft : EventDraft) (now later : Option Instant) (s : MessagingStore D)
      {r : CommandResult} {t : MessagingStore D}
      → record_command m c draft now s ≡ (ok r, t)
      → r.replayed ≡ false
      → record_command m c draft later t ≡ (ok (record r { replayed = true }), t)
  record-record c draft now later s {r} {t} h new =
      let (admitted, a) = record-answered c draft now s h new in
      let answered = a.answered in
      record-known c draft later t answered.row answered.row.request_digest admitted
        answered.same_digest answered.found
      ∙ known-answers c t r answered

  -- A command that reuses the key of one that was recorded for a new key, but whose digest differs,
  -- raises `IdempotencyConflict` and changes nothing, if its event's payload is safe.
  pub record-reused :
      (c other : CommandEnvelope) (draft changed : EventDraft) (now later : Option Instant)
      (payload : Fields) (digest : Text) (s : MessagingStore D) {r : CommandResult}
      {t : MessagingStore D}
      → record_command m c draft now s ≡ (ok r, t)
      → r.replayed ≡ false
      → other.workspace_id ≡ c.workspace_id
      → other.actor_id ≡ c.actor_id
      → other.command_type ≡ c.command_type
      → other.idempotency_key ≡ c.idempotency_key
      → request_digest m.sha256 other ≡ ok digest
      → request_digest m.sha256 c ≢ ok digest
      → safe_payload changed.event_payload ≡ ok payload
      → record_command m other changed later t ≡ (err MessagingFailure.key_reused, t)
  record-reused c other draft changed now later payload digest s {r} {t} h new w a ty k made differ
        safe =
      let (admitted, ans) = record-answered c draft now s h new in
      let row = ans.answered.row in
      let found : find (is_command other) t.commands ≡ some row =
        rw (w, a, ty, k) ans.answered.found in
      let too : IsAdmitted other changed t = record {
        here = rw w admitted.here;
        own = rw a admitted.own;
        payload = payload;
        safe = safe;
        passes = rw w admitted.passes;
      } in
      record-known other changed later t row digest too made found
      ∙ known-refused other t row digest made
          (elim (Bool-cases (text_eq row.request_digest digest)) [
            | inl same ↦ absurd (
                differ
                  (ans.answered.same_digest ∙ ap ok (text_eq-eq row.request_digest digest same)))
            | inr other_digest ↦ other_digest
          ])
