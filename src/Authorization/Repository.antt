-- ===== src/Authorization/Repository.antt =====
-- app/authorization/repository.py: the lookups, and the inserts of a flush.
use wanderra_os.Base.{ℕ, Bool, not, any, ◌&&◌, Option, List, [], ◌∷◌, ◌++◌, map, suc, ◌==◌}
use wanderra_os.Base.Text.{Text, text_eq}
use wanderra_os.Base.Table.{find, select}
use wanderra_os.Base.Action.{Action, ◌>>=◌, ◌>>◌, raise_if, gets, modify, pure}
use wanderra_os.Tenancy.Models.{AuditEvent, OutboxEvent, audit_taken, outbox_taken}
use wanderra_os.Authorization.Contracts.{AuthorizationFailure}
use wanderra_os.Authorization.Models.{
  Permission, RuleEffect, RolePermission, User, IdentitySession, WorkspaceMembership,
  AuthorizationStore,
}

abbrev pub AuthorizationAction : Type 0 → Type 0
AuthorizationAction = Action AuthorizationStore AuthorizationFailure

unfoldable pub get_actor : ℕ → AuthorizationStore → Option User
get_actor actor_id s = find (λ r. r.id == actor_id) s.users

unfoldable pub get_session : ℕ → ℕ → AuthorizationStore → Option IdentitySession
get_session workspace_id session_id s =
    find (λ r. (r.workspace_id == workspace_id) && (r.id == session_id)) s.sessions

unfoldable pub get_membership : ℕ → ℕ → AuthorizationStore → Option WorkspaceMembership
get_membership workspace_id membership_id s =
    find (λ r. (r.workspace_id == workspace_id) && (r.id == membership_id)) s.memberships

unfoldable pub get_permission : Text → ℕ → AuthorizationStore → Option Permission
get_permission permission_key permission_version s =
    find (λ r. text_eq r.permission_key permission_key && (r.version == permission_version))
      s.permissions

-- The rule is one of the role's for the permission.
abbrev pub is_rule : Text → ℕ → Text → ℕ → RolePermission → Bool
is_rule role_key role_version permission_key permission_version r =
    text_eq r.role_key role_key
    && (r.role_version == role_version)
    && text_eq r.permission_key permission_key
    && (r.permission_version == permission_version)

unfoldable pub list_role_permission_effects :
    Text → ℕ → Text → ℕ → AuthorizationStore → List RuleEffect
list_role_permission_effects role_key role_version permission_key permission_version s =
    map (λ r. r.effect)
      (select (is_rule role_key role_version permission_key permission_version) s.role_permissions)

-- What the foreign keys `fk_audit_events_workspace` and `fk_outbox_events_workspace` ask.
unfoldable pub knows_workspace : ℕ → AuthorizationStore → Bool
knows_workspace workspace_id s = any (λ id. id == workspace_id) s.workspaces

-- `session.add` of an audit row, as the flush writes it.
unfoldable pub add_audit : AuditEvent → AuthorizationAction (Unit {0})
add_audit r = do
  raise_if (not (← gets (knows_workspace r.workspace_id))) AuthorizationFailure.constraint_violated
  raise_if (audit_taken r (← gets (λ s. s.audit))) AuthorizationFailure.constraint_violated
  modify (λ s. record s { audit = s.audit ++ (r ∷ []) })

unfoldable pub add_outbox : OutboxEvent → AuthorizationAction (Unit {0})
add_outbox r = do
  raise_if (not (← gets (knows_workspace r.workspace_id))) AuthorizationFailure.constraint_violated
  raise_if (outbox_taken r (← gets (λ s. s.outbox))) AuthorizationFailure.constraint_violated
  modify (λ s. record s { outbox = s.outbox ++ (r ∷ []) })

-- `uuid.uuid4()`, as the next of a sequence of identifiers.
unfoldable pub uuid4 : (ℕ → ℕ) → AuthorizationAction ℕ
uuid4 fresh = do n ← gets (λ s. s.draws); modify (λ s. record s { draws = suc n }); pure (fresh n)
