-- ===== src/Authorization/Tests.antt =====
-- app/authorization run on a small store: the theorems applied to concrete requests.
use wanderra_os.Base.{◌≡◌, ◌↔◌, true, none, [], ◌∷◌}
use wanderra_os.Base.Text.{codes}
use wanderra_os.Base.Result.{ok}
use wanderra_os.Authorization.Contracts.{AuthorizationRequest, allow}
use wanderra_os.Authorization.Models.{
  RuleEffect, RolePermission, UserStatus, MembershipStatus, AuthorizationStore,
}
use wanderra_os.Authorization.Service.{authorize}
use wanderra_os.Authorization.Requirements.{IsAuthorized}
use wanderra_os.Authorization.Recorded.{AreNew}
use wanderra_os.Authorization.Decisions.{authorize-IsAuthorized}

abbrev grant : RolePermission
grant = record {
  role_key = codes "member";
  role_version = 1;
  permission_key = codes "task.read";
  permission_version = 1;
  effect = RuleEffect.allow_rule;
}

abbrev store : AuthorizationStore
store = record {
  users = record { id = 5; status = UserStatus.active } ∷ [];
  sessions =
      record { workspace_id = 1; id = 6; user_id = 5; expires_at = 900; revoked_at = none } ∷ [];
  memberships =
      record {
        workspace_id = 1;
        id = 7;
        organization_id = 2;
        user_id = 5;
        role_key = codes "member";
        role_version = 1;
        status = MembershipStatus.active;
      }
      ∷ [];
  permissions = record { permission_key = codes "task.read"; version = 1; active = true } ∷ [];
  role_permissions = grant ∷ [];
  audit = [];
  outbox = [];
  workspaces = 1 ∷ [];
  draws = 40;
}

abbrev request : AuthorizationRequest
request = record {
  actor_id = 5;
  session_id = 6;
  organization_id = 2;
  requested_workspace_id = 1;
  membership_workspace_id = 1;
  membership_id = 7;
  permission_key = codes "task.read";
  permission_version = 1;
  request_reference = codes "request";
}

store-AreNew : AreNew (λ n. n) store
store-AreNew = record { audit_new = tt; outbox_new = tt }

authorize-IsAuthorized_example :
    ((authorize (λ n. n) request 100 store).0 ≡ ok (allow 1 100)) ↔ IsAuthorized store request 100
authorize-IsAuthorized_example = authorize-IsAuthorized (λ n. n) store request 100 store-AreNew
