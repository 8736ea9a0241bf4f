-- ===== src/Authorization/Decisions.antt =====
-- `authorize` of app/authorization/service.py: which requests it allows, and what it records.
use wanderra_os.Base.{
  ℕ, ◌≡◌, ◌↔◌, ◌⊎◌, refl, ap, subst, ◌∙◌, true, false, Option, none, some, any, ◌==◌, arith,
  Bool-cases, inl, inr,
}
use wanderra_os.Base.Text.{text_eq-eq}
use wanderra_os.Base.Table.{find-test}
use wanderra_os.Base.Result.{Result, ok}
use wanderra_os.Base.Action.{◌>>=◌, pure}
use wanderra_os.Jobs.Contracts.{Instant}
use wanderra_os.Authorization.Contracts.{
  AuthorizationFailure, DecisionEffect, ReasonCode, AuthorizationRequest, AuthorizationDecision,
  allow, deny,
}
use wanderra_os.Authorization.Models.{
  Permission, RuleEffect, WorkspaceMembership, AuthorizationStore,
}
use wanderra_os.Authorization.Repository.{
  knows_workspace, get_actor, get_session, get_membership, get_permission,
  list_role_permission_effects,
}
use wanderra_os.Authorization.Service.{
  is_allow, is_deny, actor_denied, session_denied, membership_denied, record_decision, denied,
  authorize_role, authorize_permission, authorize_member, authorize,
}
use wanderra_os.Authorization.Effects.{HasRule, effects-HasRule, HasRule-effects}
use wanderra_os.Authorization.Requirements.{
  IsAuthorized, actor-active, session-live, membership-active, is_deny-only, is_allow-only,
}
use wanderra_os.Authorization.Recorded.{AreNew, record_decision-stored, record_decision-refused}

-- How a method answers a request: it records one decision and returns it, which allows exactly
-- the requests that `P` tells.
record Answers (fresh : ℕ → ℕ) (s : AuthorizationStore) (q : AuthorizationRequest) (at : Instant)
    (P : Type 0) (run : Result AuthorizationFailure AuthorizationDecision × AuthorizationStore)
    : Type 0 where
  decision : AuthorizationDecision
  recorded : run ≡ (record_decision fresh q decision >>= λ _. pure decision) s
  verdict :
      ((decision ≡ allow q.permission_version at) × P)
      ⊎ ((decision.effect ≡ DecisionEffect.deny_effect) × (decision.decided_at ≡ at) × ¬ P)

Answers-iff :
    (fresh : ℕ → ℕ) (s : AuthorizationStore) (q : AuthorizationRequest) (at : Instant)
    (P Q : Type 0) {run : Result AuthorizationFailure AuthorizationDecision × AuthorizationStore}
    → (P → Q)
    → (Q → P)
    → Answers fresh s q at P run
    → Answers fresh s q at Q run
Answers-iff fresh s q at P Q f g a = record {
  decision = a.decision;
  recorded = a.recorded;
  verdict = elim a.verdict [
    | inl (e, p) ↦ inl (e, f p)
    | inr (e, t, no_p) ↦ inr (e, t, λ x. no_p (g x))
  ];
}

module _ (fresh : ℕ → ℕ) (s : AuthorizationStore) (q : AuthorizationRequest) (at : Instant) where
  refused :
      (reason : ReasonCode) (P : Type 0)
      {run : Result AuthorizationFailure AuthorizationDecision × AuthorizationStore}
      → run ≡ denied fresh q reason at s
      → ¬ P
      → Answers fresh s q at P run
  unfolding denied
  refused reason P e bad = record {
    decision = deny reason q.permission_version at;
    recorded = e;
    verdict = inr (refl, refl, bad);
  }

  module _ (m : WorkspaceMembership) where
    abbrev Granted : RuleEffect → Type 0
    Granted = HasRule s m.role_key m.role_version q.permission_key q.permission_version

    role-Answers :
        (p : Permission)
        → p.permission_key ≡ q.permission_key
        → p.version ≡ q.permission_version
        → Answers fresh s q at
            (Granted RuleEffect.allow_rule × (¬ Granted RuleEffect.deny_rule))
            (authorize_role fresh q at m p s)
    unfolding authorize_role ◌>>=◌
    role-Answers p e v =
        let effects =
          list_role_permission_effects m.role_key m.role_version q.permission_key
            q.permission_version s in
        rw (e, v)
          (elim (Bool-cases (any is_deny effects)) [
            | inl bad ↦
                refused ReasonCode.explicit_deny _ (rw bad refl)
                  (λ h. h.1 (effects-HasRule s _ _ _ _ is_deny _ is_deny-only bad))
            | inr free ↦ elim (Bool-cases (any is_allow effects)) [
              | inl good ↦ record {
                decision = allow q.permission_version at;
                recorded = rw (free, good) refl;
                verdict = inl (
                  refl,
                  (
                    effects-HasRule s _ _ _ _ is_allow _ is_allow-only good,
                    λ h. let found = HasRule-effects s _ _ _ _ is_deny _ refl h in absurd (cc),
                  ),
                );
              }
              | inr bad ↦
                  refused ReasonCode.role_permission_missing _ (rw (free, bad) refl)
                    (λ h. let found = HasRule-effects s _ _ _ _ is_allow _ refl h.0 in absurd (cc))
            ]
          ])

    abbrev Permitted : Type 0
    Permitted =
        (p : Permission) × (get_permission q.permission_key q.permission_version s ≡ some p)
        × (p.active ≡ true)
        × Granted RuleEffect.allow_rule
        × (¬ Granted RuleEffect.deny_rule)

    permission-Answers :
        (found : Option Permission)
        → get_permission q.permission_key q.permission_version s ≡ found
        → Answers fresh s q at Permitted (authorize_permission fresh q at m found s)
    unfolding authorize_permission get_permission
    permission-Answers none e =
        refused ReasonCode.unknown_permission _ refl (λ h. let found = h.1 in absurd (cc))
    permission-Answers (some p) e = elim (Bool-cases p.active) [
      | inr bad ↦
          refused ReasonCode.unknown_permission _ (rw bad refl)
            (λ h. let found = h.1 in let active = h.2 in let same : h.0 ≡ p = cc in absurd (cc))
      | inl good ↦
          let hit = find-test _ s.permissions e in
          rw good (
            Answers-iff fresh s q at _ _ (λ h. (p, e, good, h.0, h.1)) (λ h. (h.3, h.4))
              (role-Answers p (text_eq-eq p.permission_key q.permission_key (ground (arith, hit)))
                (ground (arith, hit))))
    ]

  abbrev Admitted : Type 0
  Admitted =
      (m : WorkspaceMembership) × (get_membership q.requested_workspace_id q.membership_id s
        ≡ some m)
      × (membership_denied q m ≡ false)
      × Permitted m

  member-Answers :
      (found : Option WorkspaceMembership)
      → get_membership q.requested_workspace_id q.membership_id s ≡ found
      → Answers fresh s q at Admitted (authorize_member fresh q at found s)
  unfolding authorize_member ◌>>=◌
  member-Answers none e =
      refused ReasonCode.invalid_membership _ refl (λ h. let found = h.1 in absurd (cc))
  member-Answers (some m) e = elim (Bool-cases (membership_denied q m)) [
    | inl bad ↦
        refused ReasonCode.invalid_membership _ (rw bad refl)
          (λ h. let found = h.1 in let free = h.2 in let same : h.0 ≡ m = cc in absurd (cc))
    | inr free ↦ rw free (
        Answers-iff fresh s q at _ _ (λ h. (m, e, free, h))
          (λ h. let found = h.1 in let same : h.0 ≡ m = cc in subst Permitted same h.3)
          (permission-Answers m (get_permission q.permission_key q.permission_version s) refl))
  ]

  abbrev Cleared : Type 0
  Cleared =
      (q.requested_workspace_id == q.membership_workspace_id ≡ true)
      × (actor_denied (get_actor q.actor_id s) ≡ false)
      × (session_denied q at (get_session q.requested_workspace_id q.session_id s) ≡ false)
      × Admitted

  authorize-Answers : Answers fresh s q at Cleared (authorize fresh q at s)
  unfolding authorize ◌>>=◌
  authorize-Answers = elim (Bool-cases (q.requested_workspace_id == q.membership_workspace_id)) [
    | inr bad ↦
        refused ReasonCode.workspace_mismatch _ (rw bad refl) (λ h. let good = h.0 in absurd (cc))
    | inl here ↦ elim (Bool-cases (actor_denied (get_actor q.actor_id s))) [
      | inl bad ↦
          refused ReasonCode.invalid_actor _ (rw (here, bad) refl)
            (λ h. let good = h.1 in absurd (cc))
      | inr actor ↦
          elim (Bool-cases
            (session_denied q at (get_session q.requested_workspace_id q.session_id s))) [
              | inl bad ↦
                  refused ReasonCode.invalid_session _ (rw (here, actor, bad) refl)
                    (λ h. let good = h.2 in absurd (cc))
              | inr live ↦
                  rw (here, actor, live)
                    (Answers-iff fresh s q at _ _ (λ h. (refl, refl, refl, h)) (λ h. h.3)
                      (member-Answers (get_membership q.requested_workspace_id q.membership_id s)
                        refl))
            ]
    ]
  ]

  Cleared→IsAuthorized :
      Cleared → knows_workspace q.requested_workspace_id s ≡ true → IsAuthorized s q at
  Cleared→IsAuthorized (here, actor, session, (m, found, free, (p, key, active, granted, clear)))
        known =
      let (u, actor_found, actor_ok) = actor-active _ actor in
      let (r, session_found, own, kept, live) = session-live q at _ session in
      let (m_own, m_here, m_active) = membership-active q m free in
      record {
        workspace_known = known;
        same_workspace = ground (arith, here);
        actor = u;
        actor_found = actor_found;
        actor_active = actor_ok;
        session = r;
        session_found = session_found;
        session_own = own;
        session_kept = kept;
        session_live = live;
        membership = m;
        membership_found = found;
        membership_own = m_own;
        membership_here = m_here;
        membership_active = m_active;
        permission = p;
        permission_found = key;
        permission_active = active;
        granted = granted;
        not_denied = clear;
      }

  IsAuthorized→Cleared : IsAuthorized s q at → Cleared
  IsAuthorized→Cleared a = (
    rw a.same_workspace (ground arith),
    rw (a.actor_found, a.actor_active) refl,
    rw (a.session_found, a.session_own, a.session_kept) (ground (arith, a.session_live)),
    (
      a.membership,
      a.membership_found,
      rw (a.membership_own, a.membership_here, a.membership_active) (ground arith),
      (a.permission, a.permission_found, a.permission_active, a.granted, a.not_denied),
    ),
  )

  -- If `uuid4` draws new identifiers then `authorize` returns the decision to allow exactly when
  -- the workspace is stored, the workspaces agree, the user is active, the session is the user's
  -- and neither revoked nor expired, the membership is the user's active one in the organization,
  -- the permission is active, the role has a rule that allows it, and the role has no rule that
  -- denies it.
  pub authorize-IsAuthorized :
      AreNew fresh s
      → ((authorize fresh q at s).0 ≡ ok (allow q.permission_version at)) ↔ IsAuthorized s q at
  authorize-IsAuthorized new =
      let a = authorize-Answers in
      elim (Bool-cases (knows_workspace q.requested_workspace_id s)) [
        | inr unknown ↦
            let run = a.recorded ∙ record_decision-refused fresh s q a.decision unknown in
            let value = ap (λ x. x.0) run in
            (λ allowed. absurd (cc), λ h. let known = h.workspace_known in absurd (cc))
        | inl known ↦
            let run = a.recorded ∙ record_decision-stored fresh s q a.decision new known in
            let value = ap (λ x. x.0) run in
            elim a.verdict [
              | inl (e, p) ↦ ((λ _. Cleared→IsAuthorized p known), (λ _. value ∙ ap ok e))
              | inr (e, t, no_p) ↦ (
                (λ allowed.
                    let same : a.decision ≡ allow q.permission_version at = cc in
                    let effect = ap (λ d. d.effect) same in absurd (cc)),
                (λ h. absurd (no_p (IsAuthorized→Cleared h))),
              )
            ]
      ]
