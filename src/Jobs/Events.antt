-- ===== src/Jobs/Events.antt =====
-- `_record` of app/jobs/service.py: what is in the store behind a call, and when it returns.
use wanderra_os.Base.{
  ℕ, suc, ◌≡◌, ◌≢◌, refl, sym, ap, ◌∙◌, false, List, [], ◌∷◌, ◌++◌, All, arith, Bool-cases, inl,
  inr,
}
use wanderra_os.Base.Result.{ok}
use wanderra_os.Base.Action.{◌>>=◌}
use wanderra_os.Jobs.Contracts.{Instant}
use wanderra_os.Jobs.Models.{EventType, AggregateType, OutboxRow, Store, Context}
use wanderra_os.Jobs.Session.{audit_row, outbox_row, outbox_taken, add_outbox, record_event}

-- The outbox row is no row's double: neither its identifier nor its place in the sequence of its
-- aggregate is in use.
abbrev pub AreFree : ℕ → ℕ → ℕ → List OutboxRow → Type 0
AreFree id aggregate_id sequence =
    All (λ x. (x.id ≢ id) × (x.aggregate_id ≡ aggregate_id → x.aggregate_sequence ≢ sequence))

add_outbox-inv :
    (r : OutboxRow) (s : Store) {x : Unit {0}} {t : Store}
    → add_outbox r s ≡ (ok x, t)
    → record s { outbox = s.outbox ++ (r ∷ []) } ≡ t
unfolding add_outbox ◌>>=◌
add_outbox-inv r s e = elim (Bool-cases (outbox_taken r s.outbox)) [
  | inl taken ↦ absurd (let bad = rw taken at e in cc)
  | inr free ↦ (let done = rw free at e in ap (λ x. x.1) done)
]

module _ (context : Context) (aggregate_id sequence : ℕ) (event : EventType) (kind : AggregateType)
    (now : Instant) where
  -- The row that the next identifier of the factory is drawn for.
  abbrev pub next_row : Store → OutboxRow
  next_row s =
      outbox_row context (context.id_factory s.ids_drawn) aggregate_id sequence event kind now

  -- The store with the audit row and the outbox row of an event.
  abbrev pub told : Store → Store
  told s = record s {
    audit = s.audit ++ (audit_row context aggregate_id sequence event kind ∷ []);
    outbox = s.outbox ++ (next_row s ∷ []);
    ids_drawn = suc s.ids_drawn;
  }

  record_event-step :
      (s : Store)
      → record_event context aggregate_id sequence event kind now s
        ≡ add_outbox (next_row s) (record (told s) { outbox = s.outbox })
  unfolding record_event ◌>>=◌
  record_event-step s = refl

  pub record_event-inv :
      (s : Store) {x : Unit {0}} {t : Store}
      → record_event context aggregate_id sequence event kind now s ≡ (ok x, t)
      → told s ≡ t
  record_event-inv s e =
      add_outbox-inv (next_row s) (record (told s) { outbox = s.outbox })
        (sym (record_event-step s) ∙ e)

  outbox-free :
      (r : OutboxRow) (rows : List OutboxRow)
      → AreFree r.id r.aggregate_id r.aggregate_sequence rows
      → outbox_taken r rows ≡ false
  unfolding outbox_taken
  outbox-free r [] h = refl
  outbox-free r (x ∷ rows) h =
      let rest = outbox-free r rows h.1 in
      let new = h.0.0 in let other = h.0.1 in ground (arith, rest, new, other)

  pub record_event-returns :
      (s : Store)
      → AreFree (context.id_factory s.ids_drawn) aggregate_id sequence s.outbox
      → record_event context aggregate_id sequence event kind now s ≡ (ok tt, told s)
  unfolding add_outbox ◌>>=◌ outbox_row
  record_event-returns s free =
      record_event-step s ∙ rw (outbox-free (next_row s) s.outbox free) refl
