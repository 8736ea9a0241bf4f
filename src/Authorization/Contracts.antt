-- ===== src/Authorization/Contracts.antt =====
-- app/authorization/contracts.py: the request, the decision and its reasons.
use wanderra_os.Base.{ℕ, length, ltb, ◌==◌}
use wanderra_os.Base.Text.{Text, strip, codes}
use wanderra_os.Base.Result.{Result, ok, ◌>>◌, raise_if}
use wanderra_os.Jobs.Contracts.{Instant}

-- `ValueError` of a request, by the field that is refused, and `IntegrityError` of a flush.
pub data AuthorizationFailure : Type 0 where
  permission_key_missing permission_version_invalid reference_missing : AuthorizationFailure
  constraint_violated : AuthorizationFailure

pub data DecisionEffect : Type 0 where
  allow_effect deny_effect : DecisionEffect

-- `effect.value`
abbrev pub effect_value : DecisionEffect → Text
effect_value DecisionEffect.allow_effect = codes "allow"
effect_value DecisionEffect.deny_effect = codes "deny"

pub data ReasonCode : Type 0 where
  allowed invalid_actor invalid_session invalid_membership : ReasonCode
  workspace_mismatch unknown_permission explicit_deny role_permission_missing : ReasonCode

abbrev pub reason_value : ReasonCode → Text
reason_value ReasonCode.allowed = codes "allowed"
reason_value ReasonCode.invalid_actor = codes "invalid_actor"
reason_value ReasonCode.invalid_session = codes "invalid_session"
reason_value ReasonCode.invalid_membership = codes "invalid_membership"
reason_value ReasonCode.workspace_mismatch = codes "workspace_mismatch"
reason_value ReasonCode.unknown_permission = codes "unknown_permission"
reason_value ReasonCode.explicit_deny = codes "explicit_deny"
reason_value ReasonCode.role_permission_missing = codes "role_permission_missing"

abbrev pub policy_version : Text
policy_version = codes "h1-05-v1"

pub record AuthorizationRequest : Type 0 where
  pub actor_id : ℕ
  pub session_id : ℕ
  pub organization_id : ℕ
  pub requested_workspace_id : ℕ
  pub membership_workspace_id : ℕ
  pub membership_id : ℕ
  pub permission_key : Text
  pub permission_version : ℕ
  pub request_reference : Text

-- `__post_init__`
unfoldable pub authorization_request :
    AuthorizationRequest → Result AuthorizationFailure AuthorizationRequest
authorization_request q = do
  raise_if (length (strip q.permission_key) == 0) AuthorizationFailure.permission_key_missing
  raise_if (ltb q.permission_version 1) AuthorizationFailure.permission_version_invalid
  raise_if (length (strip q.request_reference) == 0) AuthorizationFailure.reference_missing
  ok q

pub record AuthorizationDecision : Type 0 where
  pub effect : DecisionEffect
  pub reason : ReasonCode
  pub policy : Text
  pub permission_version : ℕ
  pub decided_at : Instant

-- `AuthorizationDecision.allow`
abbrev pub allow : ℕ → Instant → AuthorizationDecision
allow version now = record {
  effect = DecisionEffect.allow_effect;
  reason = ReasonCode.allowed;
  policy = policy_version;
  permission_version = version;
  decided_at = now;
}

-- `AuthorizationDecision.deny`
abbrev pub deny : ReasonCode → ℕ → Instant → AuthorizationDecision
deny reason version now = record {
  effect = DecisionEffect.deny_effect;
  reason = reason;
  policy = policy_version;
  permission_version = version;
  decided_at = now;
}
