-- ===== src/Authorization/Requirements.antt =====
-- `authorize` of app/authorization/service.py: what each of its checks asks of the rows.
use wanderra_os.Base.{
  ◌≡◌, ◌<◌, refl, Bool, true, false, not, ◌||◌, Option, none, some, ◌==◌, is_some, arith,
}
use wanderra_os.Jobs.Contracts.{Instant}
use wanderra_os.Authorization.Contracts.{AuthorizationRequest}
use wanderra_os.Authorization.Models.{
  Permission, RuleEffect, UserStatus, User, IdentitySession, MembershipStatus, WorkspaceMembership,
  AuthorizationStore,
}
use wanderra_os.Authorization.Repository.{
  knows_workspace, get_actor, get_session, get_membership, get_permission,
}
use wanderra_os.Authorization.Service.{
  is_allow, is_deny, is_active_user, is_active_member, actor_denied, session_denied,
  membership_denied,
}
use wanderra_os.Authorization.Effects.{HasRule}

-- What it takes to be allowed, told of the rows and without an order of checks.
pub record IsAuthorized (s : AuthorizationStore) (q : AuthorizationRequest) (at : Instant)
    : Type 0 where
  pub workspace_known : knows_workspace q.requested_workspace_id s ≡ true
  pub same_workspace : q.requested_workspace_id ≡ q.membership_workspace_id
  pub actor : User
  pub actor_found : get_actor q.actor_id s ≡ some actor
  pub actor_active : actor.status ≡ UserStatus.active
  pub session : IdentitySession
  pub session_found : get_session q.requested_workspace_id q.session_id s ≡ some session
  pub session_own : session.user_id ≡ q.actor_id
  pub session_kept : session.revoked_at ≡ none
  pub session_live : at < session.expires_at
  pub membership : WorkspaceMembership
  pub membership_found : get_membership q.requested_workspace_id q.membership_id s ≡ some membership
  pub membership_own : membership.user_id ≡ q.actor_id
  pub membership_here : membership.organization_id ≡ q.organization_id
  pub membership_active : membership.status ≡ MembershipStatus.active
  pub permission : Permission
  pub permission_found : get_permission q.permission_key q.permission_version s ≡ some permission
  pub permission_active : permission.active ≡ true
  pub granted :
      HasRule s membership.role_key membership.role_version q.permission_key q.permission_version
        RuleEffect.allow_rule
  pub not_denied :
      ¬ HasRule s membership.role_key membership.role_version q.permission_key q.permission_version
        RuleEffect.deny_rule

pub is_deny-only : (e : RuleEffect) → is_deny e ≡ true → e ≡ RuleEffect.deny_rule
is_deny-only RuleEffect.allow_rule h = absurd (cc)
is_deny-only RuleEffect.deny_rule h = refl

pub is_allow-only : (e : RuleEffect) → is_allow e ≡ true → e ≡ RuleEffect.allow_rule
is_allow-only RuleEffect.allow_rule h = refl
is_allow-only RuleEffect.deny_rule h = absurd (cc)

active_user-only : (u : UserStatus) → not (is_active_user u) ≡ false → u ≡ UserStatus.active
active_user-only UserStatus.active h = refl
active_user-only UserStatus.suspended h = absurd (cc)
active_user-only UserStatus.disabled h = absurd (cc)

active_member-only :
    (m : MembershipStatus) → not (is_active_member m) ≡ false → m ≡ MembershipStatus.active
active_member-only MembershipStatus.active h = refl
active_member-only MembershipStatus.invited h = absurd (cc)
active_member-only MembershipStatus.suspended h = absurd (cc)
active_member-only MembershipStatus.revoked h = absurd (cc)

pub actor-active :
    (found : Option User)
    → actor_denied found ≡ false
    → (r : User) × (found ≡ some r) × (r.status ≡ UserStatus.active)
actor-active none h = absurd (cc)
actor-active (some r) h = (r, refl, active_user-only r.status h)

or-false : (a b : Bool) → a || b ≡ false → (a ≡ false) × (b ≡ false)
or-false a b h = (ground (arith), ground (arith))

not_some : {A : Type 0} (o : Option A) → is_some o ≡ false → o ≡ none
not_some none h = refl
not_some (some a) h = absurd (cc)

pub session-live :
    (q : AuthorizationRequest) (at : Instant) (found : Option IdentitySession)
    → session_denied q at found ≡ false
    → (r : IdentitySession) × (found ≡ some r)
      × (r.user_id ≡ q.actor_id)
      × (r.revoked_at ≡ none)
      × (at < r.expires_at)
session-live q at none h = absurd (cc)
session-live q at (some r) h =
    let (own, late) = or-false (not (r.user_id == q.actor_id) || is_some r.revoked_at) _ h in
    let (mine, kept) = or-false (not (r.user_id == q.actor_id)) _ own in
    (r, refl, ground (arith, mine), not_some r.revoked_at kept, ground (arith, late))

pub membership-active :
    (q : AuthorizationRequest) (r : WorkspaceMembership)
    → membership_denied q r ≡ false
    → (r.user_id ≡ q.actor_id)
      × (r.organization_id ≡ q.organization_id)
      × (r.status ≡ MembershipStatus.active)
membership-active q r h =
    let (here, status) =
      or-false (not (r.user_id == q.actor_id) || not (r.organization_id == q.organization_id)) _
        h in
    let (own, organization) = or-false (not (r.user_id == q.actor_id)) _ here in
    (ground (arith, own), ground (arith, organization), active_member-only r.status status)
