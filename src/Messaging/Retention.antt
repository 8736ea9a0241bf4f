-- ===== src/Messaging/Retention.antt =====
-- `consume` of app/messaging/service.py: an event that is quarantined is stored, and can be read
-- back.
use wanderra_os.Base.{
  ℕ, ◌+◌, ◌≡◌, ◌⊎◌, refl, sym, ap, subst, ◌∙◌, Bool, true, false, not, Option, none, some, [], ◌∷◌,
  ◌++◌, ◌==◌, if◌then◌else◌, Bool-cases, inl, inr,
}
use wanderra_os.Base.Text.{Text}
use wanderra_os.Base.Result.{ok}
use wanderra_os.Base.Action.{◌>>=◌, ◌>>◌, pure, bind-inv, guard-inv, lift-inv, some-inv, pure-inv}
use wanderra_os.Messaging.Contracts.{ConsumerResult, EventEnvelope, event_envelope}
use wanderra_os.Messaging.Models.{
  InboxStatus, ConsumerSequence, QuarantineReason, QuarantineStatus, EventQuarantine,
  MessagingStore, MessagingContext,
}
use wanderra_os.Messaging.Repository.{save_sequence}
use wanderra_os.Messaging.Envelopes.{serialize_event, deserialize_event}
use wanderra_os.Messaging.Consumer.{
  is_recognized, result_of, Apply, quarantine_event, quarantine, quarantine_claimed, run_apply,
  consume_next, consume_known, consume,
}
use wanderra_os.Messaging.RoundTrip.{HasUuids, deserialize_event-serialize_event}
use wanderra_os.Messaging.Unstored.{
  uuid4-Framed, claim_inbox-Framed, lock-Framed, get_inbox-Framed, save_inbox-Framed, saved-Framed,
  run_apply-Framed, kept, add_quarantine-inv,
}

-- What a call of `consume` from `s` to `t` leaves in the quarantine.
pub data Retained {D : Type 0} (m : MessagingContext) (e : EventEnvelope) (consumer_id : Text)
    (s t : MessagingStore D) : ConsumerResult → Type 0 where
  stored :
      (q : EventQuarantine)
      → t.quarantines ≡ s.quarantines ++ (q ∷ [])
      → q.consumer_id ≡ consumer_id
      → q.event_id ≡ e.event_id
      → q.status ≡ QuarantineStatus.quarantined
      → q.event_payload ≡ serialize_event m e
      → Retained m e consumer_id s t (result_of q.reason)
  nothing_stored :
      {r : ConsumerResult}
      → (r ≡ ConsumerResult.processed) ⊎ (r ≡ ConsumerResult.duplicate)
      → t.quarantines ≡ s.quarantines
      → Retained m e consumer_id s t r

module _ {D : Type 0} (m : MessagingContext) where
  module _ (e : EventEnvelope) (consumer_id : Text) (digest : Text) where
    event-Retained :
        (reason : QuarantineReason) (expected : Option ℕ) (s s1 : MessagingStore D)
        {r : ConsumerResult} {t : MessagingStore D}
        → s1.quarantines ≡ s.quarantines
        → quarantine_event m e consumer_id reason expected digest s1 ≡ (ok r, t)
        → Retained m e consumer_id s t r
    unfolding quarantine_event
    event-Retained reason expected s s1 {r} {t} same h =
        let (id, s2, drawn, h1) = bind-inv _ _ s1 h in
        let (rows2, any2) = kept m s1 (uuid4-Framed m _) drawn in
        let (u, s3, added, h2) = bind-inv _ _ s2 h1 in
        let (result, end_store) = pure-inv _ _ h2 in
        let row : EventQuarantine = record {
          workspace_id = e.workspace_id;
          id = id;
          consumer_id = consumer_id;
          event_id = e.event_id;
          reason = reason;
          expected_sequence = expected;
          observed_sequence = e.aggregate_sequence;
          event_payload = serialize_event m e;
          payload_digest = digest;
          status = QuarantineStatus.quarantined;
          replayed_at = none;
          replayed_by = none;
          replay_decision_id = none;
        } in
        subst (Retained m e consumer_id s t) result (
          stored row
            (ap (λ (x : MessagingStore D). x.quarantines) (sym end_store)
              ∙ add_quarantine-inv m _ s2 added
              ∙ ap (λ qs. qs ++ (row ∷ [])) (rows2 ∙ same))
            refl refl refl refl)

    nothing :
        (s t : MessagingStore D) (r : ConsumerResult)
        → (r ≡ ConsumerResult.processed) ⊎ (r ≡ ConsumerResult.duplicate)
        → t.quarantines ≡ s.quarantines
        → Retained m e consumer_id s t r
    nothing s t r which same = nothing_stored which same

    quarantine-Retained :
        (reason : QuarantineReason) (expected : Option ℕ) (s s1 : MessagingStore D)
        {r : ConsumerResult} {t : MessagingStore D}
        → s1.quarantines ≡ s.quarantines
        → quarantine m e consumer_id reason expected digest s1 ≡ (ok r, t)
        → Retained m e consumer_id s t r
    unfolding quarantine
    quarantine-Retained reason expected s s1 {r} {t} same h =
        let (claimed, s2, h1, h2) = bind-inv _ _ s1 h in
        let (rows2, any2) =
          kept m s1 (claim_inbox-Framed m _ e consumer_id InboxStatus.quarantined digest) h1 in
        go claimed s2 (rows2 ∙ same) h2
      where
        go :
            (claimed : Bool) (s2 : MessagingStore D)
            → s2.quarantines ≡ s.quarantines
            → (if not claimed
                  then pure ConsumerResult.duplicate
                  else quarantine_event m e consumer_id reason expected digest)
                s2
              ≡ (ok r, t)
            → Retained m e consumer_id s t r
        go true s2 rows h = event-Retained reason expected s s2 rows h
        go false s2 rows h =
            let (result, end_store) = pure-inv _ _ h in
            nothing s t r (inr (sym result))
              (ap (λ (x : MessagingStore D). x.quarantines) (sym end_store) ∙ rows)

    claimed-Retained :
        (reason : QuarantineReason) (expected : ℕ) (s s1 : MessagingStore D) {r : ConsumerResult}
        {t : MessagingStore D}
        → s1.quarantines ≡ s.quarantines
        → quarantine_claimed m e consumer_id reason expected digest s1 ≡ (ok r, t)
        → Retained m e consumer_id s t r
    unfolding quarantine_claimed
    claimed-Retained reason expected s s1 same h =
        let (found, s2, h1, h2) = bind-inv _ _ s1 h in
        let (rows2, any2) =
          kept m s1 (get_inbox-Framed m _ e.workspace_id consumer_id e.event_id) h1 in
        let (inbox, there, h3) = some-inv _ _ _ s2 h2 in
        let (u, s3, h4, h5) = bind-inv _ _ s2 h3 in
        let (rows3, any3) = kept m s2 (save_inbox-Framed m _ _) h4 in
        event-Retained reason (some expected) s s3 (rows3 ∙ rows2 ∙ same) h5

    applied-Retained :
        (seq : ConsumerSequence) (done : Bool) (s s1 : MessagingStore D) {r : ConsumerResult}
        {t : MessagingStore D}
        → s1.quarantines ≡ s.quarantines
        → (if not done
              then quarantine_claimed m e consumer_id QuarantineReason.poison_message
                  (seq.last_sequence + 1)
                  digest
              else (save_sequence (record seq { last_sequence = e.aggregate_sequence })
                  >> pure ConsumerResult.processed))
            s1
          ≡ (ok r, t)
        → Retained m e consumer_id s t r
    applied-Retained seq false s s1 same h =
        claimed-Retained QuarantineReason.poison_message _ s s1 same h
    applied-Retained seq true s s1 {r} {t} same h =
        let (rows, is) = kept m s1 (saved-Framed m _ _) h in nothing s t r (inl is) (rows ∙ same)

    next-Retained :
        (supported : Text → Option ℕ) (apply : Apply D) (seq : ConsumerSequence)
        (s s1 : MessagingStore D) {r : ConsumerResult} {t : MessagingStore D}
        → s1.quarantines ≡ s.quarantines
        → consume_next m supported e consumer_id apply digest seq s1 ≡ (ok r, t)
        → Retained m e consumer_id s t r
    unfolding consume_next
    next-Retained supported apply seq s s1 {r} {t} same h =
        let (claimed, s2, h1, h2) = bind-inv _ _ s1 h in
        let (rows2, any2) =
          kept m s1 (claim_inbox-Framed m _ e consumer_id InboxStatus.processed digest) h1 in
        go claimed s2 (rows2 ∙ same) h2
      where
        go :
            (claimed : Bool) (s2 : MessagingStore D)
            → s2.quarantines ≡ s.quarantines
            → (if not claimed
                  then pure ConsumerResult.duplicate
                  else (run_apply m apply >>= λ done.
                      if not done
                      then quarantine_claimed m e consumer_id QuarantineReason.poison_message
                          (seq.last_sequence + 1)
                          digest
                      else (save_sequence (record seq { last_sequence = e.aggregate_sequence })
                          >> pure ConsumerResult.processed)))
                s2
              ≡ (ok r, t)
            → Retained m e consumer_id s t r
        go false s2 rows h =
            let (result, end_store) = pure-inv _ _ h in
            nothing s t r (inr (sym result))
              (ap (λ (x : MessagingStore D). x.quarantines) (sym end_store) ∙ rows)
        go true s2 rows h =
            let (done, s3, h3, h4) = bind-inv _ _ s2 h in
            let (rows3, any3) = kept m s2 (run_apply-Framed m _ apply) h3 in
            applied-Retained seq done s s3 (rows3 ∙ rows) h4

    known-Retained :
        (supported : Text → Option ℕ) (apply : Apply D) (s : MessagingStore D) {r : ConsumerResult}
        {t : MessagingStore D}
        → consume_known m supported e consumer_id apply digest s ≡ (ok r, t)
        → Retained m e consumer_id s t r
    unfolding consume_known
    known-Retained supported apply s {r} {t} h =
        let (seq, s1, h1, h2) = bind-inv _ _ s h in
        let (rows1, any1) = kept m s (lock-Framed m _ e consumer_id) h1 in
        elim (Bool-cases (e.aggregate_sequence == (seq.last_sequence + 1))) [
          | inl next ↦ next-Retained supported apply seq s s1 rows1 (rw next at h2)
          | inr other ↦ quarantine-Retained _ _ s s1 rows1 (rw other at h2)
        ]

    schema-Retained :
        (supported : Text → Option ℕ) (apply : Apply D) (s : MessagingStore D) (known : Bool)
        {r : ConsumerResult} {t : MessagingStore D}
        → (if not known
              then quarantine m e consumer_id QuarantineReason.unknown_schema none digest
              else consume_known m supported e consumer_id apply digest)
            s
          ≡ (ok r, t)
        → Retained m e consumer_id s t r
    schema-Retained supported apply s true h = known-Retained supported apply s h
    schema-Retained supported apply s false h =
        quarantine-Retained QuarantineReason.unknown_schema none s s refl h

  -- If `consume` returns, then either it says `processed` or `duplicate` and the quarantine is as it
  -- was, or it has added one row for the consumer and the event, quarantined and with the event as
  -- `_serialize_event` writes it, and it says what the reason in the row stands for.
  pub consume-Retained :
      (supported : Text → Option ℕ) (e : EventEnvelope) (consumer_id : Text) (apply : Apply D)
      (s : MessagingStore D) {r : ConsumerResult} {t : MessagingStore D}
      → consume m supported e consumer_id apply s ≡ (ok r, t)
      → Retained m e consumer_id s t r
  unfolding consume
  consume-Retained supported e consumer_id apply s h =
      let (here, h1) = guard-inv _ _ _ s h in
      let (payload, safe, h2) = lift-inv _ _ s h1 in
      let (digest, made, h3) = lift-inv _ _ s h2 in
      schema-Retained e consumer_id digest supported apply s
        (is_recognized (supported e.event_type) e.schema_major) h3

-- If `consume` returns and says `gap` or `quarantined`, then the last row of the quarantine is read
-- back as the event by `_deserialize_event`. This holds of an event that its envelope accepts, whose
-- identifiers have 128 bits, and whose instant `fromisoformat` reads back from `isoformat`.
pub consume-deserialize_event :
    {D : Type 0} (m : MessagingContext) (supported : Text → Option ℕ) (e : EventEnvelope)
    (consumer_id : Text) (apply : Apply D) (s : MessagingStore D) {r : ConsumerResult}
    {t : MessagingStore D}
    → consume m supported e consumer_id apply s ≡ (ok r, t)
    → (r ≡ ConsumerResult.gap) ⊎ (r ≡ ConsumerResult.quarantined)
    → event_envelope e ≡ ok e
    → HasUuids e
    → m.fromisoformat (m.isoformat e.occurred_at) ≡ some e.occurred_at
    → (q : EventQuarantine) × (t.quarantines ≡ s.quarantines ++ (q ∷ []))
      × (deserialize_event m q.event_payload ≡ ok e)
consume-deserialize_event m supported e consumer_id apply s {r} {t} h held accepted ids time =
    read (consume-Retained m supported e consumer_id apply s h) held
  where
    read :
        {x : ConsumerResult}
        → Retained m e consumer_id s t x
        → (x ≡ ConsumerResult.gap) ⊎ (x ≡ ConsumerResult.quarantined)
        → (q : EventQuarantine) × (t.quarantines ≡ s.quarantines ++ (q ∷ []))
          × (deserialize_event m q.event_payload ≡ ok e)
    read (stored q added consumer id status payload) _ = (
      q,
      added,
      ap (deserialize_event m) payload ∙ deserialize_event-serialize_event m e accepted ids time,
    )
    read (nothing_stored (inl a) same) (inl b) = absurd (cc)
    read (nothing_stored (inl a) same) (inr b) = absurd (cc)
    read (nothing_stored (inr a) same) (inl b) = absurd (cc)
    read (nothing_stored (inr a) same) (inr b) = absurd (cc)
