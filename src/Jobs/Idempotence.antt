-- ===== src/Jobs/Idempotence.antt =====
-- `enqueue` of app/jobs/service.py under one idempotency key.
use wanderra_os.Base.{
  ℕ, ◌≡◌, ◌≢◌, refl, sym, ap, subst, ◌∙◌, Bool, true, false, not, ◌&&◌, Option, none, some, [], ◌∷◌,
  ◌++◌, arith, ◌==◌, Bool-cases, inl, inr,
}
use wanderra_os.Base.Text.{Text, text_eq, text_eq_refl, text_eq-eq}
use wanderra_os.Base.Json.{Json, dumps}
use wanderra_os.Base.Table.{find, find-append_last}
use wanderra_os.Base.Result.{Result, ok, err}
use wanderra_os.Base.Action.{
  modify, ◌>>=◌, ◌>>◌, pure, bind-ok, bind-inv, gets-pass, pure-inv, guard-inv, lift-inv, some-inv,
  guard-pass, some-pass,
}
use wanderra_os.Jobs.Contracts.{Instant, JobEnqueue, Failure, key_reused}
use wanderra_os.Jobs.Models.{JobInstance, Permission, EventType, AggregateType, Store, Context}
use wanderra_os.Jobs.Repository
use wanderra_os.Jobs.Repository.{is_mine}
use wanderra_os.Jobs.Session.{add_job, record_event}
use wanderra_os.Jobs.Events.{record_event-inv}
use wanderra_os.Jobs.Service.Guards.{require_authorized}
use wanderra_os.Jobs.Service.Enqueue.{
  is_available, digest_fields, digest, new_job, enqueue_new, enqueue_existing, enqueue_keyed,
  enqueue, now_or,
}

module _ (context : Context) where
  -- The path of a call that reaches the lookup of its key, with the digest of the command.
  record Reaches (c : JobEnqueue) (text : Text) (s : Store) : Type 0 where
    allowed : not (context.authorize Permission.update_content) ≡ false
    available : not (is_available (Repository.definition context c.definition_id s)) ≡ false
    encoded : Text
    encodes : dumps (digest_fields context c) ≡ some encoded
    digested : text ≡ context.sha256 encoded

  enqueue-inv :
      (c : JobEnqueue) (now : Option Instant) (s : Store) {r : JobInstance} {t : Store}
      → enqueue context c now s ≡ (ok r, t)
      → (text : Text) × Reaches c text s
        × (enqueue_keyed context c text
              (now_or now context.clock)
              (Repository.job_by_idempotency context c.definition_id c.idempotency_key s)
              s
            ≡ (ok r, t))
  unfolding enqueue require_authorized digest
  enqueue-inv c now s {r} {t} e =
      let (allowed, e1) = guard-inv _ _ _ s e in
      let e2 = sym (gets-pass _ _ s) ∙ e1 in
      let (available, e3) = guard-inv _ _ _ s e2 in
      let (text, u, d, e4) = bind-inv _ _ s e3 in
      let (encoded, encodes, d') = some-inv _ _ _ s d in
      let (same, here) = pure-inv _ s d' in
      let e5 = rw (← here) at e4 in
      (
        text,
        record {
          allowed = allowed;
          available = available;
          encoded = encoded;
          encodes = encodes;
          digested = sym same;
        },
        sym (gets-pass _ _ s) ∙ e5,
      )

  enqueue-step :
      (c : JobEnqueue) (text : Text) (now : Option Instant) (s : Store)
      → Reaches c text s
      → enqueue context c now s
        ≡ enqueue_keyed context c text
            (now_or now context.clock)
            (Repository.job_by_idempotency context c.definition_id c.idempotency_key s)
            s
  unfolding enqueue require_authorized digest
  enqueue-step c text now s reach =
      let digests : digest context c s ≡ (ok text, s) =
        some-pass _ _ _ s reach.encodes ∙ unfold pure in ap (λ x. (ok x, s)) (sym reach.digested) in
      guard-pass _ _ _ s reach.allowed
      ∙ gets-pass _ _ s
      ∙ guard-pass _ _ _ s reach.available
      ∙ bind-ok (digest context c) _ digests
      ∙ gets-pass _ _ s

  record_pure-inv :
      (a n : ℕ) (event : EventType) (kind : AggregateType) (now : Instant) (v : JobInstance)
      (s : Store) {r : JobInstance} {t : Store}
      → (record_event context a n event kind now >> pure v) s ≡ (ok r, t)
      → (v ≡ r) × (t.jobs ≡ s.jobs) × (t.definitions ≡ s.definitions)
  record_pure-inv a n event kind now v s {r} {t} h =
      let (x, u, recorded, e) = bind-inv (record_event context a n event kind now) _ s h in
      let here = record_event-inv context a n event kind now s recorded in
      let (same, there) = pure-inv v u e in
      (
        same,
        sym (ap (λ (x : Store). x.jobs) (here ∙ there)),
        sym (ap (λ (x : Store). x.definitions) (here ∙ there)),
      )

  add_job-inv :
      (v : JobInstance) (s : Store) {x : Unit {0}} {t : Store}
      → add_job context v s ≡ (ok x, t)
      → (t.jobs ≡ s.jobs ++ (v ∷ [])) × (t.definitions ≡ s.definitions)
  unfolding add_job modify
  add_job-inv v s e =
      let (_, g1) = guard-inv _ _ _ s e in
      let (_, g2) = guard-inv _ _ _ s g1 in
      let (_, g3) = guard-inv _ _ _ s g2 in
      let written = (guard-inv _ _ _ s (sym (gets-pass _ _ s) ∙ g3)).1 in
      (
        ap (λ (x : Result Failure (Unit {0}) × Store). x.1.jobs) (sym written),
        ap (λ (x : Result Failure (Unit {0}) × Store). x.1.definitions) (sym written),
      )

  -- The row that a new key brings stands last, with the digest and the key of the command.
  enqueue_new-inv :
      (c : JobEnqueue) (text : Text) (now : Instant) (s : Store) {r : JobInstance} {t : Store}
      → enqueue_new context c text now s ≡ (ok r, t)
      → (payload : Json) × (new_job context c text payload now ≡ r)
        × (t.jobs ≡ s.jobs ++ (r ∷ []))
        × (t.definitions ≡ s.definitions)
  unfolding enqueue_new
  enqueue_new-inv c text now s e =
      let e1 = (guard-inv _ _ _ s (sym (gets-pass _ _ s) ∙ e)).1 in
      let e2 = (guard-inv _ _ _ s (sym (gets-pass _ _ s) ∙ e1)).1 in
      let (payload, _, e3) = lift-inv _ _ s e2 in
      let (_, u, added, e4) = bind-inv _ _ s e3 in
      let (jobs, definitions) = add_job-inv _ s added in
      let (same, kept, kept') = record_pure-inv _ _ _ _ _ _ u e4 in
      (payload, same, kept ∙ jobs ∙ ap (λ v. s.jobs ++ (v ∷ [])) same, kept' ∙ definitions)

  -- The test of `job_by_idempotency`.
  abbrev has_key : JobEnqueue → JobInstance → Bool
  has_key c r =
      is_mine context r.tenant
      && (r.definition_id == c.definition_id)
      && text_eq r.idempotency_key c.idempotency_key

  -- After an enqueue that returned, the key finds the job that it returned, and the definitions
  -- are the same.
  keyed-found :
      (c : JobEnqueue) (text : Text) (now : Instant) (s : Store) (o : Option JobInstance)
      {r : JobInstance} {t : Store}
      → find (has_key c) s.jobs ≡ o
      → enqueue_keyed context c text now o s ≡ (ok r, t)
      → (find (has_key c) t.jobs ≡ some r)
        × (t.definitions ≡ s.definitions)
        × (text_eq r.request_digest text ≡ true)
  unfolding enqueue_keyed enqueue_existing new_job
  keyed-found c text now s none {r} {t} missing e =
      let (payload, same, jobs, definitions) = enqueue_new-inv c text now s e in
      let key : has_key c (new_job context c text payload now) ≡ true =
        ground (arith, text_eq_refl c.idempotency_key) in
      (
        rw jobs (
            find-append_last (has_key c) r s.jobs missing
              (subst (λ v. has_key c v ≡ true) same key)),
        definitions,
        subst (λ (v : JobInstance). text_eq v.request_digest text ≡ true) same (text_eq_refl text),
      )
  keyed-found c text now s (some x) {r} {t} there e =
      let (same_digest, e1) = guard-inv _ _ _ s e in
      let (same, here) = pure-inv _ s e1 in
      (
        subst (λ (v : Store). find (has_key c) v.jobs ≡ some r) here (there ∙ ap some same),
        ap (λ (v : Store). v.definitions) (sym here),
        subst (λ (v : JobInstance). text_eq v.request_digest text ≡ true) same
            (ground (arith, same_digest)),
      )

  -- If an enqueue returned a job, then a second enqueue of the same command, at any time and with
  -- any identifier for the new job, returns that job too and changes nothing.
  pub enqueue-enqueue :
      (c : JobEnqueue) (job_id : ℕ) (now later : Option Instant) (s : Store) {r : JobInstance}
      {t : Store}
      → enqueue context c now s ≡ (ok r, t)
      → enqueue context (record c { job_id = job_id }) later t ≡ (ok r, t)
  unfolding digest_fields Repository.job_by_idempotency Repository.definition
  enqueue-enqueue c job_id now later s {r} {t} e =
      let (text, reach, keyed) = enqueue-inv c now s e in
      let (found, definitions, digests) =
        keyed-found c text (now_or now context.clock) s _ refl keyed in
      let again : Reaches (record c { job_id = job_id }) text t = record {
        allowed = reach.allowed;
        available = rw definitions reach.available;
        encoded = reach.encoded;
        encodes = reach.encodes;
        digested = reach.digested;
      } in
      enqueue-step (record c { job_id = job_id }) text later t again
      ∙ ap
          (λ o.
            enqueue_keyed context (record c { job_id = job_id }) text (now_or later context.clock) o
              t)
          found
      ∙ unfold enqueue_keyed enqueue_existing pure in
        guard-pass (not (text_eq r.request_digest text)) key_reused (pure r) t (rw digests)

  -- If an enqueue returned a job, then an enqueue under the same definition and key of a command
  -- that has another digest raises `IdempotencyConflict`, and nothing changes.
  pub enqueue-conflict :
      (c c' : JobEnqueue) (now later : Option Instant) (s : Store) {r : JobInstance} {t : Store}
      (encoded : Text)
      → enqueue context c now s ≡ (ok r, t)
      → c'.definition_id ≡ c.definition_id
      → c'.idempotency_key ≡ c.idempotency_key
      → dumps (digest_fields context c') ≡ some encoded
      → context.sha256 encoded ≢ r.request_digest
      → enqueue context c' later t ≡ (err key_reused, t)
  unfolding Repository.job_by_idempotency Repository.definition
  enqueue-conflict c c' now later s {r} {t} encoded e same_definition same_key encodes other =
      let (text, reach, keyed) = enqueue-inv c now s e in
      let (found, definitions, digests) =
        keyed-found c text (now_or now context.clock) s _ refl keyed in
      let found' : Repository.job_by_idempotency context c'.definition_id c'.idempotency_key t
          ≡ some r =
        rw (same_definition, same_key) found in
      let again : Reaches c' (context.sha256 encoded) t = record {
        allowed = reach.allowed;
        available = rw (definitions, same_definition) reach.available;
        encoded = encoded;
        encodes = encodes;
        digested = refl;
      } in
      enqueue-step c' (context.sha256 encoded) later t again
      ∙ ap (λ o. enqueue_keyed context c' (context.sha256 encoded) (now_or later context.clock) o t)
          found'
      ∙ elim (Bool-cases (text_eq r.request_digest (context.sha256 encoded))) [
        | inl same ↦ absurd (other (sym (text_eq-eq _ _ same)))
        | inr differs ↦ unfold enqueue_keyed enqueue_existing ◌>>=◌ in rw differs
      ]
