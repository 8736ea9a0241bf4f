-- ===== src/ExecutionContext/Contracts.antt =====
-- app/execution_context/contracts.py: the context and its validation.
use wanderra_os.Base.{
  ℕ, ◌≡◌, refl, ap, Bool, true, false, not, ◌&&◌, Option, none, some, List, [], ◌∷◌, length, ltb,
  ◌==◌, arith,
}
use wanderra_os.Base.Text.{Text, strip, codes, text_eq, text_eq_refl}
use wanderra_os.Base.Json.{str_uuid, decimal}
use wanderra_os.Base.Result.{Result, ok, ◌>>◌, raise_if}

-- What the package raises, one constructor for each message, the `ValueError`s first, then
-- `ExecutionContextError` and `ExecutionContextRequiredError`. `transaction_open` is SQLAlchemy's, and
-- `raised` any other exception of a block, by its name.
pub data ContextFailure : Type 0 where
  reference_missing reference_too_long version_unsupported : ContextFailure
  context_absent no_transaction workspace_unknown placement_differs : ContextFailure
  placement_inactive context_unbound context_differs cross_workspace : ContextFailure
  transaction_open : ContextFailure
  raised : Text → ContextFailure

unfoldable pub require_reference : Text → Result ContextFailure (Unit {0})
require_reference value = do
  raise_if (length (strip value) == 0) ContextFailure.reference_missing
  raise_if (ltb 128 (length value)) ContextFailure.reference_too_long

pub record RequestContext : Type 0 where
  pub request_id : Text
  pub correlation_id : Text

-- `RequestContext.__post_init__`
unfoldable pub request_context : RequestContext → Result ContextFailure RequestContext
unfolding require_reference
request_context r = do require_reference r.request_id; require_reference r.correlation_id; ok r

pub record ActorContext : Type 0 where
  pub actor_id : ℕ
  pub session_id : ℕ
  pub membership_id : ℕ
  pub authorization_decision_id : ℕ
  pub delegation_id : Option ℕ

pub record TenantContext : Type 0 where
  pub organization_id : ℕ
  pub workspace_id : ℕ
  pub cell_id : ℕ

pub record ExecutionContext : Type 0 where
  pub request : RequestContext
  pub actor : ActorContext
  pub tenant : TenantContext
  pub version : ℕ

-- `ExecutionContext.__post_init__`
unfoldable pub execution_context : ExecutionContext → Result ContextFailure ExecutionContext
execution_context c = do raise_if (not (c.version == 1)) ContextFailure.version_unsupported; ok c

abbrev delegation_reference : Text → Option ℕ → List (Text × Text)
delegation_reference key none = []
delegation_reference key (some id) = (key, str_uuid id) ∷ []

unfoldable pub audit_references : ExecutionContext → List (Text × Text)
audit_references c =
    (codes "request_id", c.request.request_id)
    ∷ (codes "correlation_id", c.request.correlation_id)
    ∷ (codes "authorization_decision_id", str_uuid c.actor.authorization_decision_id)
    ∷ (codes "execution_context_version", decimal c.version)
    ∷ delegation_reference (codes "delegation_id") c.actor.delegation_id

abbrev delegation_eq : Option ℕ → Option ℕ → Bool
delegation_eq none none = true
delegation_eq (some a) (some b) = a == b
delegation_eq _ _ = false

-- `==` of the frozen data classes.
unfoldable pub context_eq : ExecutionContext → ExecutionContext → Bool
context_eq c d =
    text_eq c.request.request_id d.request.request_id
    && text_eq c.request.correlation_id d.request.correlation_id
    && (c.actor.actor_id == d.actor.actor_id)
    && (c.actor.session_id == d.actor.session_id)
    && (c.actor.membership_id == d.actor.membership_id)
    && (c.actor.authorization_decision_id == d.actor.authorization_decision_id)
    && delegation_eq c.actor.delegation_id d.actor.delegation_id
    && (c.tenant.organization_id == d.tenant.organization_id)
    && (c.tenant.workspace_id == d.tenant.workspace_id)
    && (c.tenant.cell_id == d.tenant.cell_id)
    && (c.version == d.version)

delegation_eq-eq : (a b : Option ℕ) → delegation_eq a b ≡ true → a ≡ b
delegation_eq-eq none none h = refl
delegation_eq-eq (some a) (some b) h = let same : a ≡ b = ground arith in ap some same
delegation_eq-eq none (some b) h = absurd (cc)
delegation_eq-eq (some a) none h = absurd (cc)

delegation_eq_refl : (a : Option ℕ) → delegation_eq a a ≡ true
delegation_eq_refl none = refl
delegation_eq_refl (some a) = ground arith

pub context_eq_refl : (c : ExecutionContext) → context_eq c c ≡ true
unfolding context_eq
context_eq_refl c =
    rw
      (
        text_eq_refl c.request.request_id,
        text_eq_refl c.request.correlation_id,
        delegation_eq_refl c.actor.delegation_id,
      )
      (ground arith)
