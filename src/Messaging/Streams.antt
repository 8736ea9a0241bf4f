-- ===== src/Messaging/Streams.antt =====
-- The abstract view of a consumer: for each stream of events the number of its last event, and the
-- data that the events were applied to. It forgets in which rows the numbers stand, and whether a
-- stream that has no event yet has a row.
use wanderra_os.Base.{
  ℕ, ◌≡◌, ◌≢◌, refl, sym, ap, subst, ◌∙◌, Bool, true, false, ◌&&◌, Option, none, some, List, [],
  ◌∷◌, ◌==◌, is_some, if◌then◌else◌, arith, Bool-cases, Option-cases, inl, inr,
}
use wanderra_os.Base.Text.{Text, text_eq, text_eq_refl, text_eq-eq}
use wanderra_os.Base.Table.{
  find, update, find-append, find-append_none, find-update_self, find-update_skip,
}
use wanderra_os.Messaging.Contracts.{EventEnvelope}
use wanderra_os.Messaging.Models.{ConsumerSequence, MessagingStore}
use wanderra_os.Messaging.Repository.{is_sequence, insert_new}

pub record Stream : Type 0 where
  pub workspace_id : ℕ
  pub consumer_id : Text
  pub aggregate_type : Text
  pub aggregate_id : ℕ

abbrev pub is_stream : Stream → ConsumerSequence → Bool
is_stream k = is_sequence k.workspace_id k.consumer_id k.aggregate_type k.aggregate_id

-- The stream in which a consumer sees the event.
abbrev pub stream_of : EventEnvelope → Text → Stream
stream_of e consumer_id = record {
  workspace_id = e.workspace_id;
  consumer_id = consumer_id;
  aggregate_type = e.aggregate_type;
  aggregate_id = e.aggregate_id;
}

abbrev pub number_of : Option ConsumerSequence → ℕ
number_of none = 0
number_of (some r) = r.last_sequence

unfoldable pub last_in : Stream → List ConsumerSequence → ℕ
last_in k rows = number_of (find (is_stream k) rows)

abbrev pub last_of : {D : Type 0} → Stream → MessagingStore D → ℕ
last_of k s = last_in k s.sequences

abbrev stream_row : ConsumerSequence → Stream
stream_row r = record {
  workspace_id = r.workspace_id;
  consumer_id = r.consumer_id;
  aggregate_type = r.aggregate_type;
  aggregate_id = r.aggregate_id;
}

pub is_stream-row : (k : Stream) (r : ConsumerSequence) → is_stream k r ≡ true → stream_row r ≡ k
is_stream-row k r h =
    let a : r.workspace_id ≡ k.workspace_id = ground (arith, h) in
    let b = text_eq-eq r.consumer_id k.consumer_id (ground (arith, h)) in
    let c = text_eq-eq r.aggregate_type k.aggregate_type (ground (arith, h)) in
    let d : r.aggregate_id ≡ k.aggregate_id = ground (arith, h) in rw (a, b, c, d) refl

pub row-is_stream : (k : Stream) (r : ConsumerSequence) → stream_row r ≡ k → is_stream k r ≡ true
row-is_stream k r e =
    subst (λ j. is_stream j r ≡ true) e
      (rw (text_eq_refl r.consumer_id, text_eq_refl r.aggregate_type) (ground arith))

unfoldable pub stream_eq : Stream → Stream → Bool
stream_eq j k =
    (j.workspace_id == k.workspace_id)
    && text_eq j.consumer_id k.consumer_id
    && text_eq j.aggregate_type k.aggregate_type
    && (j.aggregate_id == k.aggregate_id)

pub stream_eq-eq : (j k : Stream) → stream_eq j k ≡ true → j ≡ k
unfolding stream_eq
stream_eq-eq j k h =
    let a : j.workspace_id ≡ k.workspace_id = ground (arith, h) in
    let b = text_eq-eq j.consumer_id k.consumer_id (ground (arith, h)) in
    let c = text_eq-eq j.aggregate_type k.aggregate_type (ground (arith, h)) in
    let d : j.aggregate_id ≡ k.aggregate_id = ground (arith, h) in rw (a, b, c, d) refl

pub stream_eq_refl : (k : Stream) → stream_eq k k ≡ true
unfolding stream_eq
stream_eq_refl k = rw (text_eq_refl k.consumer_id, text_eq_refl k.aggregate_type) (ground arith)

-- A row of one stream is no other stream's.
other-is_stream :
    (j k : Stream) (r : ConsumerSequence) → j ≢ k → is_stream k r ≡ true → is_stream j r ≡ false
other-is_stream j k r differ h = elim (Bool-cases (is_stream j r)) [
  | inl same ↦ absurd (differ (sym (is_stream-row j r same) ∙ is_stream-row k r h))
  | inr away ↦ away
]

-- The row that starts a stream changes no number.
pub last_in-insert_new :
    (j k : Stream) (row : ConsumerSequence) (rows : List ConsumerSequence)
    → row.last_sequence ≡ 0
    → last_in j (insert_new (is_stream k) row rows) ≡ last_in j rows
unfolding last_in find
last_in-insert_new j k row rows zero_row = elim (Bool-cases (is_some (find (is_stream k) rows))) [
  | inl there ↦ rw there refl
  | inr new ↦ rw new (elim (Option-cases (find (is_stream j) rows)) [
    | inl none_there ↦
        rw (find-append_none (is_stream j) row rows none_there, none_there) (lone (is_stream j row))
    | inr (r, found) ↦ rw (find-append (is_stream j) rows (row ∷ []) found, found) refl
  ])
]
  where
    lone : (b : Bool) → number_of (if b then some row else none) ≡ 0
    lone true = zero_row
    lone false = refl

pub last_in-update :
    (k : Stream) (new : ConsumerSequence) (rows : List ConsumerSequence) {r : ConsumerSequence}
    → find (is_stream k) rows ≡ some r
    → stream_row new ≡ k
    → last_in k (update (is_stream k) (λ _. new) rows) ≡ new.last_sequence
unfolding last_in
last_in-update k new rows found same =
    rw (find-update_self (is_stream k) new rows found (row-is_stream k new same)) refl

pub last_in-update_skip :
    (j k : Stream) (new : ConsumerSequence) (rows : List ConsumerSequence)
    → j ≢ k
    → stream_row new ≡ k
    → last_in j (update (is_stream k) (λ _. new) rows) ≡ last_in j rows
unfolding last_in
last_in-update_skip j k new rows differ same = ap number_of (
    find-update_skip (is_stream j) (is_stream k) new rows (λ r h. other-is_stream j k r differ h)
      (other-is_stream j k new differ (row-is_stream k new same)))
