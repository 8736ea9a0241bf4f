-- ===== src/Authorization/Service.antt =====
-- app/authorization/service.py: `authorize`, `_deny` and `_record_decision`.
use wanderra_os.Base.{
  ℕ, Bool, true, false, not, ◌||◌, Option, none, some, any, leb, ◌==◌, is_some, if◌then◌else◌,
}
use wanderra_os.Base.Text.{codes}
use wanderra_os.Base.Json.{Fields, end, field, string, integer, str_uuid}
use wanderra_os.Base.Action.{◌>>=◌, ◌>>◌, pure, gets}
use wanderra_os.Jobs.Contracts.{Instant}
use wanderra_os.Tenancy.Models.{AuditEvent, OutboxEvent}
use wanderra_os.Authorization.Contracts.{
  DecisionEffect, effect_value, ReasonCode, reason_value, AuthorizationRequest,
  AuthorizationDecision, allow, deny,
}
use wanderra_os.Authorization.Models.{
  Permission, RuleEffect, UserStatus, User, IdentitySession, MembershipStatus, WorkspaceMembership,
}
use wanderra_os.Authorization.Repository.{
  AuthorizationAction, get_actor, get_session, get_membership, get_permission,
  list_role_permission_effects, add_audit, add_outbox, uuid4,
}

abbrev pub is_allow : RuleEffect → Bool
is_allow RuleEffect.allow_rule = true
is_allow RuleEffect.deny_rule = false

abbrev pub is_deny : RuleEffect → Bool
is_deny RuleEffect.allow_rule = false
is_deny RuleEffect.deny_rule = true

abbrev pub is_active_user : UserStatus → Bool
is_active_user UserStatus.active = true
is_active_user _ = false

abbrev pub is_active_member : MembershipStatus → Bool
is_active_member MembershipStatus.active = true
is_active_member _ = false

abbrev pub actor_denied : Option User → Bool
actor_denied none = true
actor_denied (some actor) = not (is_active_user actor.status)

abbrev pub session_denied : AuthorizationRequest → Instant → Option IdentitySession → Bool
session_denied request decided_at none = true
session_denied request decided_at (some r) =
    not (r.user_id == request.actor_id) || is_some r.revoked_at || leb r.expires_at decided_at

abbrev pub membership_denied : AuthorizationRequest → WorkspaceMembership → Bool
membership_denied request r =
    not (r.user_id == request.actor_id)
    || not (r.organization_id == request.organization_id)
    || not (is_active_member r.status)

-- `details` of `_record_decision`, with `rest` behind them.
abbrev pub decision_details : AuthorizationRequest → AuthorizationDecision → Fields → Fields
decision_details request decision rest =
    field (codes "effect") (string (effect_value decision.effect)) (
      field (codes "reason") (string (reason_value decision.reason)) (
        field (codes "policy_version") (string decision.policy) (
          field (codes "permission_key") (string request.permission_key) (
            field (codes "permission_version") (integer false decision.permission_version)
              (field (codes "request_reference") (string request.request_reference) rest)))))

abbrev pub decision_audit : AuthorizationRequest → AuthorizationDecision → ℕ → AuditEvent
decision_audit request decision audit_id = record {
  workspace_id = request.requested_workspace_id;
  id = audit_id;
  actor_type = codes "user";
  actor_id = some request.actor_id;
  action = codes "authorization.decided";
  target_type = codes "workspace_membership";
  target_id = request.membership_id;
  outcome = elim decision.effect [
    | DecisionEffect.allow_effect ↦ codes "success"
    | DecisionEffect.deny_effect ↦ codes "denied"
  ];
  details = decision_details request decision end;
  decision_id = none;
  correlation_id = none;
  classification = codes "internal";
}

abbrev pub decision_outbox : AuthorizationRequest → AuthorizationDecision → ℕ → ℕ → OutboxEvent
decision_outbox request decision audit_id outbox_id = record {
  workspace_id = request.requested_workspace_id;
  id = outbox_id;
  event_type = codes "authorization.decided";
  schema_version = 1;
  aggregate_type = codes "authorization_decision";
  aggregate_id = audit_id;
  aggregate_sequence = 1;
  payload =
      field (codes "audit_event_id") (string (str_uuid audit_id))
        (decision_details request decision end);
  actor_id = none;
  delegation_id = none;
  correlation_id = none;
  causation_id = none;
  classification = codes "internal";
  schema_major = 1;
  schema_minor = 0;
  idempotency_key = none;
  payload_digest = none;
  recorded_at = none;
  partition_key = none;
}

-- `fresh` is the sequence of identifiers that `uuid4` draws from.
module _ (fresh : ℕ → ℕ) where
  -- `_record_decision`
  unfoldable pub record_decision :
      AuthorizationRequest → AuthorizationDecision → AuthorizationAction (Unit {0})
  record_decision request decision = do
    audit_id ← uuid4 fresh
    outbox_id ← uuid4 fresh
    add_audit (decision_audit request decision audit_id)
    add_outbox (decision_outbox request decision audit_id outbox_id)

  -- `_deny`
  unfoldable pub denied :
      AuthorizationRequest → ReasonCode → Instant → AuthorizationAction AuthorizationDecision
  denied request reason decided_at = do
    let decision = deny reason request.permission_version decided_at
    record_decision request decision
    pure decision

  -- `authorize` behind the checks of membership and permission.
  unfoldable pub authorize_role :
      AuthorizationRequest
      → Instant
      → WorkspaceMembership
      → Permission
      → AuthorizationAction AuthorizationDecision
  authorize_role request decided_at membership permission = do
    effects ← gets (
        list_role_permission_effects membership.role_key membership.role_version
          permission.permission_key permission.version)
    if any is_deny effects
        then denied request ReasonCode.explicit_deny decided_at
        else if not (any is_allow effects)
        then denied request ReasonCode.role_permission_missing decided_at
        else do
          let decision = allow permission.version decided_at
          record_decision request decision
          pure decision

  unfoldable pub authorize_permission :
      AuthorizationRequest
      → Instant
      → WorkspaceMembership
      → Option Permission
      → AuthorizationAction AuthorizationDecision
  unfolding authorize_role
  authorize_permission request decided_at membership none =
      denied request ReasonCode.unknown_permission decided_at
  authorize_permission request decided_at membership (some permission) =
      if not permission.active
      then denied request ReasonCode.unknown_permission decided_at
      else authorize_role request decided_at membership permission

  unfoldable pub authorize_member :
      AuthorizationRequest
      → Instant
      → Option WorkspaceMembership
      → AuthorizationAction AuthorizationDecision
  unfolding authorize_permission
  authorize_member request decided_at none = denied request ReasonCode.invalid_membership decided_at
  authorize_member request decided_at (some membership) =
      if membership_denied request membership
      then denied request ReasonCode.invalid_membership decided_at
      else do
        permission ← gets (get_permission request.permission_key request.permission_version)
        authorize_permission request decided_at membership permission

  -- `decided_at` is the time given, or the clock's.
  unfoldable pub authorize :
      AuthorizationRequest → Instant → AuthorizationAction AuthorizationDecision
  unfolding authorize_member
  authorize request decided_at =
      if not (request.requested_workspace_id == request.membership_workspace_id)
      then denied request ReasonCode.workspace_mismatch decided_at
      else do
        actor ← gets (get_actor request.actor_id)
        if actor_denied actor then denied request ReasonCode.invalid_actor decided_at else do
          session ← gets (get_session request.requested_workspace_id request.session_id)
          if session_denied request decided_at session
              then denied request ReasonCode.invalid_session decided_at
              else do
                membership ←
                    gets (get_membership request.requested_workspace_id request.membership_id)
                authorize_member request decided_at membership
