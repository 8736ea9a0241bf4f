-- ===== src/Messaging/Replays.antt =====
-- `replay` of app/messaging/service.py: what a replay moves, and what it does not run.
use wanderra_os.Base.{ℕ, ◌+◌, ◌≡◌, ◌≢◌, refl, sym, ap, subst, ◌∙◌, false, not, Option, some, arith}
use wanderra_os.Base.Text.{Text}
use wanderra_os.Base.Table.{find, update, find-test}
use wanderra_os.Base.Result.{ok}
use wanderra_os.Base.Action.{◌>>=◌, bind-inv, guard-inv, lift-inv, some-inv, gets-inv}
use wanderra_os.Messaging.Contracts.{ConsumerResult, EventEnvelope}
use wanderra_os.Messaging.Models.{
  ConsumerSequence, QuarantineStatus, EventQuarantine, MessagingStore, MessagingContext,
}
use wanderra_os.Messaging.Repository.{save_sequence, is_quarantine, get_quarantine}
use wanderra_os.Messaging.Envelopes.{deserialize_event}
use wanderra_os.Messaging.Consumer.{is_quarantined, replay_quarantined, replay}
use wanderra_os.Messaging.Streams.{
  Stream, is_stream, stream_of, number_of, last_in, last_of, is_stream-row, last_in-update,
  last_in-update_skip,
}
use wanderra_os.Messaging.Frames.{mark_processed-Keeps, finish_replay-Keeps}
use wanderra_os.Messaging.Consumption.{kept, lock-inv, require_workspace-inv}

-- A replay from the store `s` to `t` of an event of the consumer.
pub record Replayed {D : Type 0} (e : EventEnvelope) (consumer_id : Text) (s t : MessagingStore D)
    (r : ConsumerResult) : Type 0 where
  pub next : e.aggregate_sequence ≡ last_of (stream_of e consumer_id) s + 1
  pub counted : last_of (stream_of e consumer_id) t ≡ e.aggregate_sequence
  pub untouched : (k : Stream) → k ≢ stream_of e consumer_id → last_of k t ≡ last_of k s
  pub unapplied : t.domain ≡ s.domain
  pub result : r ≡ ConsumerResult.processed

still_quarantined :
    (status : QuarantineStatus)
    → not (is_quarantined status) ≡ false
    → status ≡ QuarantineStatus.quarantined
still_quarantined QuarantineStatus.quarantined h = refl
still_quarantined QuarantineStatus.replayed h = absurd (cc)

module _ {D : Type 0} (m : MessagingContext) where
  save_sequence-inv :
      (r : ConsumerSequence) (s : MessagingStore D) {t : MessagingStore D}
      → save_sequence r s ≡ (ok tt, t)
      → (t.sequences
          ≡ update
              (is_stream (record {
                workspace_id = r.workspace_id;
                consumer_id = r.consumer_id;
                aggregate_type = r.aggregate_type;
                aggregate_id = r.aggregate_id;
              }))
              (λ _. r)
              s.sequences)
        × (t.domain ≡ s.domain)
  unfolding save_sequence ◌>>=◌
  save_sequence-inv r s e = (ap (λ x. x.1.sequences) (sym e), ap (λ x. x.1.domain) (sym e))

  numbers-Replayed :
      (e : EventEnvelope) (consumer_id : Text) (seq : ConsumerSequence) (s s1 t : MessagingStore D)
      {u : MessagingStore D} {r : ConsumerResult}
      → find (is_stream (stream_of e consumer_id)) s.sequences ≡ some seq
      → e.aggregate_sequence ≡ seq.last_sequence + 1
      → s1.sequences ≡ s.sequences
      → s1.domain ≡ s.domain
      → save_sequence (record seq { last_sequence = e.aggregate_sequence }) s1 ≡ (ok tt, u)
      → t.sequences ≡ u.sequences
      → t.domain ≡ u.domain
      → r ≡ ConsumerResult.processed
      → Replayed e consumer_id s t r
  unfolding last_in
  numbers-Replayed e consumer_id seq s s1 t {u} {r} found next rows same saved after after_same is =
      let k = stream_of e consumer_id in
      let new : ConsumerSequence = record seq { last_sequence = e.aggregate_sequence } in
      let key = is_stream-row k seq (find-test (is_stream k) s.sequences found) in
      let (written, kept_data) = save_sequence-inv new s1 saved in
      let now = after ∙ written ∙ ap (λ j. update (is_stream j) (λ _. new) s1.sequences) key in
      record {
        next = next ∙ ap (λ n. n + 1) (sym (ap number_of found));
        counted =
            ap (last_in k) now
            ∙ last_in-update k new s1.sequences (ap (find (is_stream k)) rows ∙ found) key;
        untouched = λ j differ.
            ap (last_in j) now
            ∙ last_in-update_skip j k new s1.sequences differ key
            ∙ ap (last_in j) rows;
        unapplied = after_same ∙ kept_data ∙ same;
        result = is;
      }

  quarantined-Replayed :
      (supported : Text → Option ℕ) (q : EventQuarantine) (decision : ℕ) (s : MessagingStore D)
      {r : ConsumerResult} {t : MessagingStore D}
      → replay_quarantined m supported q decision s ≡ (ok r, t)
      → (e : EventEnvelope) × (deserialize_event m q.event_payload ≡ ok e)
        × Replayed e q.consumer_id s t r
  unfolding replay_quarantined
  quarantined-Replayed supported q decision s {r} {t} h =
      let (e, read, h1) = lift-inv _ _ s h in
      let (known, h2) = guard-inv _ _ _ s h1 in
      let (seq, s1, locked, h3) = bind-inv _ _ s h2 in
      let (found, same, numbers) = lock-inv m e q.consumer_id s locked in
      let (next, h4) = guard-inv _ _ _ s1 h3 in
      let (u2, s2, marked, h5) = bind-inv _ _ s1 h4 in
      let (rows2, same2, any2) = kept m s1 (mark_processed-Keeps m _ _ e q.consumer_id) marked in
      let (u3, s3, saved, h6) = bind-inv _ _ s2 h5 in
      let (rows4, same4, is) = kept m s3 (finish_replay-Keeps m _ _ q decision e) h6 in
      let done =
        numbers-Replayed e q.consumer_id seq s1 s2 t found (ground (arith, next)) rows2 same2 saved
          rows4 same4 is in
      (
        e,
        read,
        record {
          next = done.next ∙ ap (λ n. n + 1) (numbers (stream_of e q.consumer_id));
          counted = done.counted;
          untouched = λ k differ. done.untouched k differ ∙ numbers k;
          unapplied = done.unapplied ∙ same;
          result = done.result;
        },
      )

  get_quarantine-inv :
      (w id : ℕ) (s : MessagingStore D) {o : Option EventQuarantine} {t : MessagingStore D}
      → get_quarantine m w id s ≡ (ok o, t)
      → (o ≡ find (is_quarantine w id) s.quarantines) × (t ≡ s)
  unfolding get_quarantine
  get_quarantine-inv w id s h =
      let (u, s1, passed, h1) = bind-inv _ _ s h in
      let same = require_workspace-inv m w s passed in
      let (value, stored) = gets-inv _ s1 h1 in
      (
        sym value ∙ ap (λ (x : MessagingStore D). find (is_quarantine w id) x.quarantines) same,
        sym stored ∙ same,
      )

  -- A replay that is no dry run and returns was authorized by the decision of its context; it finds
  -- the event in a row of the workspace that was still quarantined, says `processed` and moves the
  -- event's stream, which had reached the number before it, on to its number and no other stream;
  -- and it leaves the consumer's data as they were.
  pub replay-Replayed :
      (supported : Text → Option ℕ) (id decision : ℕ) (s : MessagingStore D) {r : ConsumerResult}
      {t : MessagingStore D}
      → replay m supported id decision false s ≡ (ok r, t)
      → (decision ≡ m.context.actor.authorization_decision_id)
        × (q : EventQuarantine) × (find
              (is_quarantine m.context.tenant.workspace_id id)
              s.quarantines
            ≡ some q)
        × (q.status ≡ QuarantineStatus.quarantined)
        × (e : EventEnvelope) × (deserialize_event m q.event_payload ≡ ok e)
        × Replayed e q.consumer_id s t r
  unfolding replay
  replay-Replayed supported id decision s {r} {t} h =
      let (right, h1) = guard-inv _ _ _ s h in
      let (o, s1, got, h2) = bind-inv _ _ s h1 in
      let (there, same) = get_quarantine-inv m.context.tenant.workspace_id id s got in
      let (q, found, h3) = some-inv _ _ _ s1 h2 in
      let (is_open, h4) = guard-inv _ _ _ s1 h3 in
      let (e, read, done) = quarantined-Replayed supported q decision s1 h4 in
      (
        ground (arith, right),
        q,
        sym there ∙ found,
        still_quarantined q.status is_open,
        e,
        read,
        subst (λ x. Replayed e q.consumer_id x t r) same done,
      )
