-- ===== src/Authorization/Recorded.antt =====
-- `_record_decision` of app/authorization/service.py on identifiers that are new.
use wanderra_os.Base.{ℕ, suc, ◌≡◌, ◌≢◌, refl, true, false, List, [], ◌∷◌, ◌++◌, All, arith}
use wanderra_os.Base.Result.{ok, err}
use wanderra_os.Base.Action.{◌>>=◌, pure}
use wanderra_os.Tenancy.Models.{AuditEvent, OutboxEvent, audit_taken, outbox_taken}
use wanderra_os.Authorization.Contracts.{
  AuthorizationFailure, AuthorizationRequest, AuthorizationDecision,
}
use wanderra_os.Authorization.Models.{AuthorizationStore}
use wanderra_os.Authorization.Repository.{add_audit, add_outbox, uuid4, knows_workspace}
use wanderra_os.Authorization.Service.{decision_audit, decision_outbox, record_decision}

-- The next two identifiers that `uuid4` draws stand in no row.
pub record AreNew (fresh : ℕ → ℕ) (s : AuthorizationStore) : Type 0 where
  pub audit_new : All (λ r. r.id ≢ fresh s.draws) s.audit
  pub outbox_new :
      All (λ r. (r.id ≢ fresh (suc s.draws)) × (r.aggregate_id ≢ fresh s.draws)) s.outbox

-- The store with one audit row and one outbox row for a decision.
abbrev pub recorded_store :
    (ℕ → ℕ) → AuthorizationRequest → AuthorizationDecision → AuthorizationStore → AuthorizationStore
recorded_store fresh q d s = record s {
  audit = s.audit ++ (decision_audit q d (fresh s.draws) ∷ []);
  outbox = s.outbox ++ (decision_outbox q d (fresh s.draws) (fresh (suc s.draws)) ∷ []);
  draws = suc (suc s.draws);
}

audit-free :
    (r : AuditEvent) (rows : List AuditEvent)
    → All (λ x. x.id ≢ r.id) rows
    → audit_taken r rows ≡ false
unfolding audit_taken
audit-free r [] h = refl
audit-free r (x ∷ rows) h =
    let rest = audit-free r rows h.1 in let new = h.0 in ground (arith, rest, new)

outbox-free :
    (r : OutboxEvent) (rows : List OutboxEvent)
    → All (λ x. (x.id ≢ r.id) × (x.aggregate_id ≢ r.aggregate_id)) rows
    → outbox_taken r rows ≡ false
unfolding outbox_taken
outbox-free r [] h = refl
outbox-free r (x ∷ rows) h =
    let rest = outbox-free r rows h.1 in
    let new = h.0.0 in let other = h.0.1 in ground (arith, rest, new, other)

-- The store behind a flush that the database refused.
abbrev pub unrecorded_store : AuthorizationStore → AuthorizationStore
unrecorded_store s = record s { draws = suc (suc s.draws) }

pub record_decision-stored :
    (fresh : ℕ → ℕ) (s : AuthorizationStore) (q : AuthorizationRequest) (d : AuthorizationDecision)
    → AreNew fresh s
    → knows_workspace q.requested_workspace_id s ≡ true
    → (record_decision fresh q d >>= λ _. pure d) s ≡ (ok d, recorded_store fresh q d s)
unfolding record_decision add_audit add_outbox uuid4 knows_workspace ◌>>=◌
record_decision-stored fresh s q d new known =
    rw (known, audit-free (decision_audit q d (fresh s.draws)) s.audit new.audit_new, known)
      (rw
        (outbox-free (decision_outbox q d (fresh s.draws) (fresh (suc s.draws))) s.outbox
          new.outbox_new)
        refl)

pub record_decision-refused :
    (fresh : ℕ → ℕ) (s : AuthorizationStore) (q : AuthorizationRequest) (d : AuthorizationDecision)
    → knows_workspace q.requested_workspace_id s ≡ false
    → (record_decision fresh q d >>= λ _. pure d) s
      ≡ (err AuthorizationFailure.constraint_violated, unrecorded_store s)
unfolding record_decision add_audit add_outbox uuid4 knows_workspace ◌>>=◌
record_decision-refused fresh s q d unknown = rw unknown refl
