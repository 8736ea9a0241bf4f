-- ===== src/Authorization/Models.antt =====
-- app/authorization/models.py, and the rows of users, sessions and memberships that a decision
-- reads, with the columns that it reads.
use wanderra_os.Base.{ℕ, Bool, Option, List}
use wanderra_os.Base.Text.{Text}
use wanderra_os.Jobs.Contracts.{Instant}
use wanderra_os.Tenancy.Models.{AuditEvent, OutboxEvent}

pub record Permission : Type 0 where
  pub permission_key : Text
  pub version : ℕ
  pub active : Bool

-- `ck_role_permissions_effect`
pub data RuleEffect : Type 0 where
  allow_rule deny_rule : RuleEffect

pub record RolePermission : Type 0 where
  pub role_key : Text
  pub role_version : ℕ
  pub permission_key : Text
  pub permission_version : ℕ
  pub effect : RuleEffect

pub data UserStatus : Type 0 where
  active suspended disabled : UserStatus

pub record User : Type 0 where
  pub id : ℕ
  pub status : UserStatus

pub record IdentitySession : Type 0 where
  pub workspace_id : ℕ
  pub id : ℕ
  pub user_id : ℕ
  pub expires_at : Instant
  pub revoked_at : Option Instant

pub data MembershipStatus : Type 0 where
  invited active suspended revoked : MembershipStatus

pub record WorkspaceMembership : Type 0 where
  pub workspace_id : ℕ
  pub id : ℕ
  pub organization_id : ℕ
  pub user_id : ℕ
  pub role_key : Text
  pub role_version : ℕ
  pub status : MembershipStatus

-- The session: its tables, and how many identifiers `uuid4` has drawn.
-- `workspaces` holds the identifiers of the stored workspaces, which the foreign keys of the audit
-- and outbox rows name.
pub record AuthorizationStore : Type 0 where
  pub workspaces : List ℕ
  pub users : List User
  pub sessions : List IdentitySession
  pub memberships : List WorkspaceMembership
  pub permissions : List Permission
  pub role_permissions : List RolePermission
  pub audit : List AuditEvent
  pub outbox : List OutboxEvent
  pub draws : ℕ
