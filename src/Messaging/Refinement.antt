-- ===== src/Messaging/Refinement.antt =====
-- `consume` of app/messaging/service.py, one event at a time and over any run of deliveries.
use wanderra_os.Base.{
  ℕ, zero, suc, ◌+◌, ◌≡◌, refl, sym, ap, subst, ◌∙◌, Bool, true, false, not, ◌&&◌, Option, none,
  some, List, [], ◌∷◌, length, ◌==◌, if◌then◌else◌, arith, Bool-cases, inl, inr,
}
use wanderra_os.Base.Text.{Text}
use wanderra_os.Base.Result.{Result, ok, err}
use wanderra_os.Base.Action.{bind-inv, guard-inv, lift-inv}
use wanderra_os.Messaging.Contracts.{MessagingFailure, ConsumerResult, EventEnvelope}
use wanderra_os.Messaging.Models.{QuarantineReason, MessagingStore, MessagingContext}
use wanderra_os.Messaging.Consumer.{is_recognized, Apply, quarantine, consume_known, consume}
use wanderra_os.Messaging.Streams.{
  Stream, stream_of, last_of, stream_eq, stream_eq-eq, stream_eq_refl,
}
use wanderra_os.Messaging.Frames.{quarantine-Keeps}
use wanderra_os.Messaging.Consumption.{
  applied, Move, taken, left, kept, held, earlier, lock-inv, next-Move,
}

module _ {D : Type 0} (m : MessagingContext) (supported : Text → Option ℕ) where
  quarantine-Move :
      (e : EventEnvelope) (consumer_id : Text) (apply : Apply D) (digest : Text)
      (reason : QuarantineReason) (expected : Option ℕ) (s : MessagingStore D) {r : ConsumerResult}
      {t : MessagingStore D}
      → quarantine m e consumer_id reason expected digest s ≡ (ok r, t)
      → Move e consumer_id apply s t r
  quarantine-Move e consumer_id apply digest reason expected s {r} {t} h =
      let (rows, same, is_held) =
        kept m s (quarantine-Keeps m _ _ e consumer_id reason expected digest) h in
      held m e consumer_id apply digest s t r is_held rows same

  known-Move :
      (e : EventEnvelope) (consumer_id : Text) (apply : Apply D) (digest : Text)
      (s : MessagingStore D) {r : ConsumerResult} {t : MessagingStore D}
      → consume_known m supported e consumer_id apply digest s ≡ (ok r, t)
      → Move e consumer_id apply s t r
  unfolding consume_known
  known-Move e consumer_id apply digest s {r} {t} h =
      let (seq, s1, h1, h2) = bind-inv _ _ s h in
      let (found, same, numbers) = lock-inv m e consumer_id s h1 in
      earlier m e consumer_id apply digest s s1 t r same numbers
        (elim (Bool-cases (e.aggregate_sequence == (seq.last_sequence + 1))) [
          | inl next ↦
              next-Move m e consumer_id apply digest supported seq s1 found (ground (arith, next))
                (rw next at h2)
          | inr other ↦ quarantine-Move e consumer_id apply digest _ _ s1 (rw other at h2)
        ])

  schema-Move :
      (e : EventEnvelope) (consumer_id : Text) (apply : Apply D) (digest : Text)
      (s : MessagingStore D) {r : ConsumerResult} {t : MessagingStore D} (known : Bool)
      → (if not known
            then quarantine m e consumer_id QuarantineReason.unknown_schema none digest
            else consume_known m supported e consumer_id apply digest)
          s
        ≡ (ok r, t)
      → Move e consumer_id apply s t r
  schema-Move e consumer_id apply digest s true h = known-Move e consumer_id apply digest s h
  schema-Move e consumer_id apply digest s false h =
      quarantine-Move e consumer_id apply digest _ _ s h

  -- If `consume` returns, then either it says `processed`, the event's number is the one behind the
  -- last of its stream and becomes the last, no other stream's changes, and the consumer's data is
  -- what the callback made of it, which returned; or it says something else, and the numbers of all
  -- streams and the data are as they were.
  pub consume-Move :
      (e : EventEnvelope) (consumer_id : Text) (apply : Apply D) (s : MessagingStore D)
      {r : ConsumerResult} {t : MessagingStore D}
      → consume m supported e consumer_id apply s ≡ (ok r, t)
      → Move e consumer_id apply s t r
  unfolding consume
  consume-Move e consumer_id apply s {r} {t} h =
      let (here, h1) = guard-inv _ _ _ s h in
      let (payload, safe, h2) = lift-inv _ _ s h1 in
      let (digest, made, h3) = lift-inv _ _ s h2 in
      schema-Move e consumer_id apply digest s
        (is_recognized (supported e.event_type) e.schema_major) h3

-- An event that is handed to a consumer, by a caller with a context and a table of schemas.
pub record Delivery (D : Type 0) : Type 0 where
  pub caller : MessagingContext
  pub supported : Text → Option ℕ
  pub event : EventEnvelope
  pub consumer_id : Text
  pub apply : Apply D

abbrev pub stream_for : {D : Type 0} → Delivery D → Stream
stream_for d = stream_of d.event d.consumer_id

abbrev pub is_processed : Option ConsumerResult → Bool
is_processed (some ConsumerResult.processed) = true
is_processed _ = false

-- A transaction: a call that raises is rolled back.
abbrev pub settled :
    {D : Type 0}
    → MessagingStore D
    → Result MessagingFailure ConsumerResult × MessagingStore D
    → Option ConsumerResult × MessagingStore D
settled s (ok r, t) = (some r, t)
settled s (err e, t) = (none, s)

unfoldable pub deliver :
    {D : Type 0} → Delivery D → MessagingStore D → Option ConsumerResult × MessagingStore D
deliver d s = settled s (consume d.caller d.supported d.event d.consumer_id d.apply s)

-- Deliveries one after the other, each in a transaction of its own, with what each returned.
unfoldable pub deliver_all :
    {D : Type 0}
    → List (Delivery D)
    → MessagingStore D
    → List (Delivery D × Option ConsumerResult) × MessagingStore D
unfolding deliver
deliver_all [] s = ([], s)
deliver_all (d ∷ ds) s =
    let (r, s1) = deliver d s in let (rs, t) = deliver_all ds s1 in ((d, r) ∷ rs, t)

-- The numbers of the events of a stream that were processed, in the order of their deliveries.
unfoldable pub numbers_taken :
    {D : Type 0} → Stream → List (Delivery D × Option ConsumerResult) → List ℕ
numbers_taken k [] = []
numbers_taken k ((d, r) ∷ rest) =
    let behind = numbers_taken k rest in
    if is_processed r && stream_eq (stream_for d) k
    then d.event.aggregate_sequence ∷ behind
    else behind

abbrev and_then : {D : Type 0} → Option D → (D → Option D) → Option D
and_then none f = none
and_then (some x) f = f x

-- What the callbacks of the processed events, each run once, make of the data.
unfoldable pub data_taken : {D : Type 0} → List (Delivery D × Option ConsumerResult) → D → Option D
data_taken [] x = some x
data_taken ((d, r) ∷ rest) x =
    and_then (if is_processed r then applied d.apply x else some x) (data_taken rest)

abbrev pub count_from : ℕ → ℕ → List ℕ
count_from n zero = []
count_from n (suc c) = n ∷ count_from (n + 1) c

-- What one delivery does to a stream: the number of its event is the next and is counted, or
-- nothing is.
pub record Delivered {D : Type 0} (d : Delivery D) (s : MessagingStore D)
    (r : Option ConsumerResult) (t : MessagingStore D) : Type 0 where
  pub counted :
      is_processed r ≡ true
      → (d.event.aggregate_sequence ≡ last_of (stream_for d) s + 1)
        × (last_of (stream_for d) t ≡ d.event.aggregate_sequence)
        × (applied d.apply s.domain ≡ some t.domain)
  pub passed : is_processed r ≡ false → t.domain ≡ s.domain
  pub untouched :
      (k : Stream)
      → is_processed r && stream_eq (stream_for d) k ≡ false
      → last_of k t ≡ last_of k s

module _ {D : Type 0} (d : Delivery D) (s : MessagingStore D) where
  Move-Delivered :
      (t : MessagingStore D) (r : ConsumerResult)
      → Move d.event d.consumer_id d.apply s t r
      → Delivered d s (some r) t
  Move-Delivered t _ (taken next run count others) = record {
    counted = λ _. (next, count, run);
    passed = λ h. absurd (cc);
    untouched = λ k apart. others k (λ same.
        let hit : stream_eq (stream_for d) k ≡ true =
          subst (λ j. stream_eq (stream_for d) j ≡ true) (sym same)
            (stream_eq_refl (stream_for d)) in
        absurd (cc));
  }
  Move-Delivered t r (left is_held same others) = record {
    counted = λ h. absurd (is_held (only r h));
    passed = λ _. same;
    untouched = λ k _. others k;
  }
    where
      only : (x : ConsumerResult) → is_processed (some x) ≡ true → x ≡ ConsumerResult.processed
      only ConsumerResult.processed h = refl
      only ConsumerResult.duplicate h = absurd (cc)
      only ConsumerResult.gap h = absurd (cc)
      only ConsumerResult.quarantined h = absurd (cc)
      only ConsumerResult.dry_run h = absurd (cc)

  deliver-Delivered : Delivered d s (deliver d s).0 (deliver d s).1
  unfolding deliver
  deliver-Delivered =
      go (consume d.caller d.supported d.event d.consumer_id d.apply s).0
        (consume d.caller d.supported d.event d.consumer_id d.apply s).1 refl
    where
      go :
          (r : Result MessagingFailure ConsumerResult) (t : MessagingStore D)
          → consume d.caller d.supported d.event d.consumer_id d.apply s ≡ (r, t)
          → Delivered d s (settled s (r, t)).0 (settled s (r, t)).1
      go (ok r) t h =
          Move-Delivered t r (consume-Move d.caller d.supported d.event d.consumer_id d.apply s h)
      go (err e) t h = record {
        counted = λ x. absurd (cc);
        passed = λ _. refl;
        untouched = λ k _. refl;
      }

counted_on :
    (n number next : ℕ) (ns : List ℕ)
    → number ≡ n + 1
    → next ≡ number
    → ns ≡ count_from (next + 1) (length ns)
    → number ∷ ns ≡ count_from (n + 1) (suc (length ns))
counted_on n number next ns e f g =
    ap (λ xs. number ∷ xs) g
    ∙ ap (λ x. number ∷ count_from (x + 1) (length ns)) f
    ∙ ap (λ x. x ∷ count_from (x + 1) (length ns)) e

-- Over any deliveries, to any consumers and each rolled back if it raises, the numbers of the
-- events of a stream that were processed are those that follow its last number, each once and in
-- their order, and the last of them is the stream's last number afterwards.
pub deliver_all_in_order :
    {D : Type 0} (ds : List (Delivery D)) (s : MessagingStore D) (k : Stream)
    → let (rs, t) = deliver_all ds s in
      (numbers_taken k rs ≡ count_from (last_of k s + 1) (length (numbers_taken k rs)))
      × (last_of k t ≡ last_of k s + length (numbers_taken k rs))
unfolding deliver_all numbers_taken
deliver_all_in_order [] s k = (refl, omega arith)
deliver_all_in_order (d ∷ ds) s k =
    let step = deliver-Delivered d s in
    let (order, last) = deliver_all_in_order ds (deliver d s).1 k in
    elim (Bool-cases (is_processed (deliver d s).0 && stream_eq (stream_for d) k)) [
      | inl hit ↦
          let same = stream_eq-eq (stream_for d) k (ground (arith, hit)) in
          let (next, count, run) = step.counted (ground (arith, hit)) in
          let next_k = next ∙ ap (λ j. last_of j s + 1) same in
          let count_k = sym (ap (λ j. last_of j (deliver d s).1) same) ∙ count in
          rw hit (counted_on _ _ _ _ next_k count_k order, omega (arith, last, next_k, count_k))
      | inr miss ↦ rw miss (rw⁻¹ (step.untouched k miss) (order, last))
    ]

-- Over any deliveries the consumer's data is what the callbacks of the processed events make of it,
-- each run once and in the order of the deliveries, and those callbacks all returned.
pub deliver_all_data :
    {D : Type 0} (ds : List (Delivery D)) (s : MessagingStore D)
    → let (rs, t) = deliver_all ds s in data_taken rs s.domain ≡ some t.domain
unfolding deliver_all data_taken
deliver_all_data [] s = refl
deliver_all_data (d ∷ ds) s =
    let step = deliver-Delivered d s in
    let rest = deliver_all_data ds (deliver d s).1 in
    elim (Bool-cases (is_processed (deliver d s).0)) [
      | inl hit ↦ rw (hit, (step.counted hit).2) rest
      | inr miss ↦ rw miss (
          subst
            (λ x.
              data_taken (deliver_all ds (deliver d s).1).0 x
              ≡ some (deliver_all ds (deliver d s).1).1.domain)
            (step.passed miss) rest)
    ]
