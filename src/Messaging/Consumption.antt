-- ===== src/Messaging/Consumption.antt =====
-- `consume` of app/messaging/service.py refines a consumer that applies the events of a stream one
-- by one in the order of their numbers.
use wanderra_os.Base.{
  ℕ, ◌+◌, ◌≡◌, ◌≢◌, refl, sym, ap, subst, ◌∙◌, Bool, true, false, not, Option, none, some,
  if◌then◌else◌,
}
use wanderra_os.Base.Text.{Text}
use wanderra_os.Base.Table.{find, update, find-test}
use wanderra_os.Base.Result.{Result, ok}
use wanderra_os.Base.Action.{◌>>=◌, ◌>>◌, pure, bind-inv, gets-pass, modify-pass, pure-inv, some_or}
use wanderra_os.Base.Post.{Returned}
use wanderra_os.Messaging.Contracts.{MessagingFailure, ConsumerResult, EventEnvelope}
use wanderra_os.Messaging.Models.{
  InboxStatus, ConsumerSequence, QuarantineReason, MessagingStore, MessagingContext,
}
use wanderra_os.Messaging.Repository.{
  MessagingAction, require_workspace, lock_consumer_sequence, save_sequence,
}
use wanderra_os.Messaging.Consumer.{Apply, quarantine_claimed, run_apply, consume_next}
use wanderra_os.Messaging.Streams.{
  Stream, is_stream, stream_of, number_of, last_in, last_of, is_stream-row, last_in-insert_new,
  last_in-update, last_in-update_skip,
}
use wanderra_os.Messaging.Frames.{
  Framed, IsHeld, claim_inbox-Keeps, quarantine_claimed-Keeps, Keeps,
}

-- What the callback makes of the data, if it returns.
abbrev pub applied : {D : Type 0} → Apply D → D → Option D
applied none d = some d
applied (some apply) d = apply d

-- A step of the abstract consumer on the event `e`: it takes the event with the next number of its
-- stream, applies it and counts it; or it leaves everything as it is.
pub data Move {D : Type 0} (e : EventEnvelope) (consumer_id : Text) (apply : Apply D)
    (s t : MessagingStore D) : ConsumerResult → Type 0 where
  taken :
      e.aggregate_sequence ≡ last_of (stream_of e consumer_id) s + 1
      → applied apply s.domain ≡ some t.domain
      → last_of (stream_of e consumer_id) t ≡ e.aggregate_sequence
      → ((k : Stream) → k ≢ stream_of e consumer_id → last_of k t ≡ last_of k s)
      → Move e consumer_id apply s t ConsumerResult.processed
  left :
      {r : ConsumerResult}
      → IsHeld r
      → t.domain ≡ s.domain
      → ((k : Stream) → last_of k t ≡ last_of k s)
      → Move e consumer_id apply s t r

module _ {D : Type 0} (m : MessagingContext) where
  -- What a call that keeps the streams and returns leaves.
  pub kept :
      {A : Type 0} {Q : A → Type 0} (s : MessagingStore D) {run : MessagingAction D A}
      → Keeps m s.sequences s.domain Q run
      → {a : A} {t : MessagingStore D} → run s ≡ (ok a, t)
      → (t.sequences ≡ s.sequences) × (t.domain ≡ s.domain) × Q a
  kept {A} {Q} s p e =
      let (frame, value) =
        subst (λ x. Framed s.sequences s.domain x.1 × Returned Q x.0) e (p.run s (refl, refl)) in
      (frame.0, frame.1, value)

  pub require_workspace-inv :
      (id : ℕ) (s : MessagingStore D) {t : MessagingStore D}
      → require_workspace m id s ≡ (ok tt, t)
      → t ≡ s
  unfolding require_workspace ◌>>=◌
  require_workspace-inv id s e = sym (ap (λ x. x.1) e)

  some_or-inv :
      {A : Type 0} (o : Option A) (f : MessagingFailure) (s : MessagingStore D) {a : A}
      {t : MessagingStore D}
      → some_or o f s ≡ (ok a, t)
      → (o ≡ some a) × (t ≡ s)
  unfolding some_or
  some_or-inv none f s e = absurd (cc)
  some_or-inv (some a) f s e = (cc, cc)

  pub lock-inv :
      (e : EventEnvelope) (consumer_id : Text) (s : MessagingStore D) {r : ConsumerSequence}
      {t : MessagingStore D}
      → lock_consumer_sequence m e consumer_id s ≡ (ok r, t)
      → (find (is_stream (stream_of e consumer_id)) t.sequences ≡ some r)
        × (t.domain ≡ s.domain)
        × ((j : Stream) → last_of j t ≡ last_of j s)
  unfolding lock_consumer_sequence
  lock-inv e consumer_id s {r} {t} h =
      let (u, s1, passed, h1) = bind-inv _ _ s h in
      let same = require_workspace-inv e.workspace_id s passed in
      let (found, last) = some_or-inv _ _ _ (sym (modify-pass _ _ s1 ∙ gets-pass _ _ _) ∙ h1) in
      (
        ap (λ (x : MessagingStore D). find (is_stream (stream_of e consumer_id)) x.sequences) last
            ∙ found,
        ap (λ (x : MessagingStore D). x.domain) last ∙ ap (λ (x : MessagingStore D). x.domain) same,
        λ j.
            ap (last_of j) last
            ∙ last_in-insert_new j (stream_of e consumer_id) _ s1.sequences refl
            ∙ ap (last_of j) same,
      )

  run_apply-inv :
      (apply : Apply D) (s : MessagingStore D) {done : Bool} {t : MessagingStore D}
      → run_apply m apply s ≡ (ok done, t)
      → (t.sequences ≡ s.sequences)
        × (done ≡ true → applied apply s.domain ≡ some t.domain)
        × (done ≡ false → t.domain ≡ s.domain)
  unfolding run_apply ◌>>=◌
  run_apply-inv none s {done} {t} e =
      let same : s ≡ t = ap (λ x. x.1) e in
      (
        ap (λ (x : MessagingStore D). x.sequences) (sym same),
        λ _. ap (λ (x : MessagingStore D). some x.domain) same,
        λ _. ap (λ (x : MessagingStore D). x.domain) (sym same),
      )
  run_apply-inv (some f) s {done} {t} e = go (f s.domain) refl
    where
      go :
          (o : Option D)
          → f s.domain ≡ o
          → (t.sequences ≡ s.sequences)
            × (done ≡ true → f s.domain ≡ some t.domain)
            × (done ≡ false → t.domain ≡ s.domain)
      go none q =
          let out = rw q at e in
          let same = ap (λ (x : Result MessagingFailure Bool × MessagingStore D). x.1) out in
          (
            ap (λ (x : MessagingStore D). x.sequences) (sym same),
            λ h. absurd (cc),
            λ _. ap (λ (x : MessagingStore D). x.domain) (sym same),
          )
      go (some d) q =
          let out = rw q at e in
          let same = ap (λ (x : Result MessagingFailure Bool × MessagingStore D). x.1) out in
          (
            ap (λ (x : MessagingStore D). x.sequences) (sym same),
            λ _. q ∙ ap (λ (x : MessagingStore D). some x.domain) same,
            λ h. absurd (cc),
          )

  module _ (e : EventEnvelope) (consumer_id : Text) (apply : Apply D) (digest : Text) where
    pub held :
        (s t : MessagingStore D) (r : ConsumerResult)
        → IsHeld r
        → t.sequences ≡ s.sequences
        → t.domain ≡ s.domain
        → Move e consumer_id apply s t r
    held s t r is_held rows content = left is_held content (λ k. ap (last_in k) rows)

    -- The step may be told from any store with the same numbers and data.
    pub earlier :
        (s s1 t : MessagingStore D) (r : ConsumerResult)
        → s1.domain ≡ s.domain
        → ((k : Stream) → last_of k s1 ≡ last_of k s)
        → Move e consumer_id apply s1 t r
        → Move e consumer_id apply s t r
    earlier s s1 t _ content numbers (taken next run count others) =
        taken (next ∙ ap (λ n. n + 1) (numbers (stream_of e consumer_id)))
          (ap (applied apply) (sym content) ∙ run) count (λ k differ. others k differ ∙ numbers k)
    earlier s s1 t r content numbers (left is_held same others) =
        left is_held (same ∙ content) (λ k. others k ∙ numbers k)

    saved-Move :
        (seq : ConsumerSequence) (s s1 : MessagingStore D) {r : ConsumerResult}
        {t : MessagingStore D}
        → find (is_stream (stream_of e consumer_id)) s.sequences ≡ some seq
        → e.aggregate_sequence ≡ seq.last_sequence + 1
        → s1.sequences ≡ s.sequences
        → applied apply s.domain ≡ some s1.domain
        → (save_sequence (record seq { last_sequence = e.aggregate_sequence })
              >> pure ConsumerResult.processed)
            s1
          ≡ (ok r, t)
        → Move e consumer_id apply s t r
    unfolding save_sequence last_in
    saved-Move seq s s1 {r} {t} found next rows run h =
        let k = stream_of e consumer_id in
        let key = is_stream-row k seq (find-test (is_stream k) s.sequences found) in
        let (is_done, stored) = pure-inv _ _ (sym (modify-pass _ _ s1) ∙ h) in
        let new : ConsumerSequence = record seq { last_sequence = e.aggregate_sequence } in
        let written = ap (λ j. update (is_stream j) (λ _. new) s1.sequences) key in
        subst (Move e consumer_id apply s t) is_done (
          subst (λ x. Move e consumer_id apply s x ConsumerResult.processed) stored
            (taken (next ∙ ap (λ n. n + 1) (sym (ap number_of found))) run
              (ap (last_in k) written
                ∙ last_in-update k new s1.sequences (ap (find (is_stream k)) rows ∙ found) key)
              (λ j differ.
                ap (last_in j) written
                ∙ last_in-update_skip j k new s1.sequences differ key
                ∙ ap (last_in j) rows)))

    pub next-Move :
        (supported : Text → Option ℕ) (seq : ConsumerSequence) (s : MessagingStore D)
        {r : ConsumerResult} {t : MessagingStore D}
        → find (is_stream (stream_of e consumer_id)) s.sequences ≡ some seq
        → e.aggregate_sequence ≡ seq.last_sequence + 1
        → consume_next m supported e consumer_id apply digest seq s ≡ (ok r, t)
        → Move e consumer_id apply s t r
    unfolding consume_next
    next-Move supported seq s {r} {t} found next h =
        let (claimed, s1, h1, h2) = bind-inv _ _ s h in
        let (rows, same, any) =
          kept s (claim_inbox-Keeps m _ _ e consumer_id InboxStatus.processed digest) h1 in
        claim claimed s1 rows same h2
      where
        run :
            (done : Bool) (s1 s2 : MessagingStore D)
            → s1.sequences ≡ s.sequences
            → s1.domain ≡ s.domain
            → (s2.sequences ≡ s1.sequences)
              × (done ≡ true → applied apply s1.domain ≡ some s2.domain)
              × (done ≡ false → s2.domain ≡ s1.domain)
            → (if not done
                  then quarantine_claimed m e consumer_id QuarantineReason.poison_message
                      (seq.last_sequence + 1)
                      digest
                  else (save_sequence (record seq { last_sequence = e.aggregate_sequence })
                      >> pure ConsumerResult.processed))
                s2
              ≡ (ok r, t)
            → Move e consumer_id apply s t r
        run true s1 s2 rows same (rows2, ran, not_ran) h =
            saved-Move seq s s2 found next (rows2 ∙ rows) (ap (applied apply) (sym same) ∙ ran refl)
              h
        run false s1 s2 rows same (rows2, ran, not_ran) h =
            let (rows3, same3, is_held) =
              kept s2
                (quarantine_claimed-Keeps m _ _ e consumer_id QuarantineReason.poison_message _
                  digest)
                h in
            held s t r is_held (rows3 ∙ rows2 ∙ rows) (same3 ∙ not_ran refl ∙ same)

        claim :
            (claimed : Bool) (s1 : MessagingStore D)
            → s1.sequences ≡ s.sequences
            → s1.domain ≡ s.domain
            → (if not claimed
                  then pure ConsumerResult.duplicate
                  else (run_apply m apply >>= λ done.
                      if not done
                      then quarantine_claimed m e consumer_id QuarantineReason.poison_message
                          (seq.last_sequence + 1)
                          digest
                      else (save_sequence (record seq { last_sequence = e.aggregate_sequence })
                          >> pure ConsumerResult.processed)))
                s1
              ≡ (ok r, t)
            → Move e consumer_id apply s t r
        claim false s1 rows same h =
            let (is_dup, stored) = pure-inv _ _ h in
            held s t r (subst IsHeld is_dup (λ x. absurd (cc)))
              (ap (λ (x : MessagingStore D). x.sequences) (sym stored) ∙ rows)
              (ap (λ (x : MessagingStore D). x.domain) (sym stored) ∙ same)
        claim true s1 rows same h =
            let (done, s2, h3, h4) = bind-inv _ _ s1 h in
            run done s1 s2 rows same (run_apply-inv apply s1 h3) h4
