-- ===== src/Authorization/Effects.antt =====
-- `list_role_permission_effects` of app/authorization/repository.py: which rules of the table it
-- finds.
use wanderra_os.Base.{
  ℕ, zero, suc, ◌≡◌, refl, Bool, true, some, List, [], ◌∷◌, any, map, get_elem?, arith, Bool-cases,
  inl, inr,
}
use wanderra_os.Base.Text.{Text, text_eq_refl, text_eq-eq}
use wanderra_os.Base.Table.{select}
use wanderra_os.Authorization.Models.{RuleEffect, RolePermission, AuthorizationStore}
use wanderra_os.Authorization.Repository.{is_rule, list_role_permission_effects}

-- The table of rules has one for the role and the permission with the effect.
pub record HasRule (s : AuthorizationStore) (role_key : Text) (role_version : ℕ)
    (permission_key : Text) (permission_version : ℕ) (effect : RuleEffect) : Type 0 where
  pub rule : RolePermission
  pub position : ℕ
  pub listed : get_elem? s.role_permissions position ≡ some rule
  pub same_role : rule.role_key ≡ role_key
  pub same_role_version : rule.role_version ≡ role_version
  pub same_key : rule.permission_key ≡ permission_key
  pub same_version : rule.permission_version ≡ permission_version
  pub same_effect : rule.effect ≡ effect

module _ {A B : Type 0} (p : A → Bool) (g : A → B) (f : B → Bool) where
  any-select-inv :
      (rs : List A)
      → any f (map g (select p rs)) ≡ true
      → (i : ℕ) × (r : A) × (get_elem? rs i ≡ some r) × (p r ≡ true) × (f (g r) ≡ true)
  unfolding select
  any-select-inv [] h = absurd (cc)
  any-select-inv (x ∷ rs) h = elim (Bool-cases (p x)) [
    | inl hit ↦ elim (Bool-cases (f (g x))) [
      | inl good ↦ (0, x, refl, hit, good)
      | inr bad ↦
          (let (i, r, at, e, ok) = any-select-inv rs (rw (hit, bad) at h) in (suc i, r, at, e, ok))
    ]
    | inr miss ↦ (let (i, r, at, e, ok) = any-select-inv rs (rw miss at h) in (suc i, r, at, e, ok))
  ]

  any-select :
      (rs : List A) (i : ℕ) (r : A)
      → get_elem? rs i ≡ some r
      → p r ≡ true
      → f (g r) ≡ true
      → any f (map g (select p rs)) ≡ true
  unfolding select
  any-select [] i r at e ok = absurd (cc)
  any-select (x ∷ rs) zero r at e ok = let same : x ≡ r = cc in rw (same, e, ok) refl
  any-select (x ∷ rs) (suc i) r at e ok =
      let rest = any-select rs i r at e ok in
      elim (Bool-cases (p x)) [ inl hit ↦ rw (hit, rest) (ground arith) | inr miss ↦ rw miss rest ]

module _ (s : AuthorizationStore) (k : Text) (v : ℕ) (pk : Text) (pv : ℕ) where
  is_rule-inv :
      (r : RolePermission)
      → is_rule k v pk pv r ≡ true
      → (r.role_key ≡ k)
        × (r.role_version ≡ v)
        × (r.permission_key ≡ pk)
        × (r.permission_version ≡ pv)
  is_rule-inv r h = (
    text_eq-eq r.role_key k (ground (arith, h)),
    ground (arith, h),
    text_eq-eq r.permission_key pk (ground (arith, h)),
    ground (arith, h),
  )

  rule-listed :
      (r : RolePermission)
      → r.role_key ≡ k
      → r.role_version ≡ v
      → r.permission_key ≡ pk
      → r.permission_version ≡ pv
      → is_rule k v pk pv r ≡ true
  rule-listed r a b c d = rw (a, b, c, d, text_eq_refl k, text_eq_refl pk) (ground arith)

  -- A test of the effect that only one effect passes finds the rules of that effect.
  pub effects-HasRule :
      (is : RuleEffect → Bool) (effect : RuleEffect)
      → ((e : RuleEffect) → is e ≡ true → e ≡ effect)
      → any is (list_role_permission_effects k v pk pv s) ≡ true
      → HasRule s k v pk pv effect
  unfolding list_role_permission_effects
  effects-HasRule is effect only h =
      let (i, r, at, e, good) =
        any-select-inv (is_rule k v pk pv) (λ r. r.effect) is s.role_permissions h in
      let (a, b, c, d) = is_rule-inv r e in
      record {
        rule = r;
        position = i;
        listed = at;
        same_role = a;
        same_role_version = b;
        same_key = c;
        same_version = d;
        same_effect = only r.effect good;
      }

  pub HasRule-effects :
      (is : RuleEffect → Bool) (effect : RuleEffect)
      → is effect ≡ true
      → HasRule s k v pk pv effect
      → any is (list_role_permission_effects k v pk pv s) ≡ true
  unfolding list_role_permission_effects
  HasRule-effects is effect good h =
      any-select (is_rule k v pk pv) (λ r. r.effect) is s.role_permissions h.position h.rule
        h.listed (rule-listed h.rule h.same_role h.same_role_version h.same_key h.same_version)
        (rw h.same_effect good)
