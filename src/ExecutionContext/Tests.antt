-- ===== src/ExecutionContext/Tests.antt =====
-- app/execution_context run on a small session: the theorems applied to concrete transactions.
use wanderra_os.Base.{ℕ, ◌≡◌, ◌↔◌, refl, true, false, none, [], ◌∷◌, if◌then◌else◌}
use wanderra_os.Base.Text.{codes}
use wanderra_os.Base.Table.{find}
use wanderra_os.Base.Result.{Result, ok, err}
use wanderra_os.Base.Action.{Action, ◌>>=◌, ◌>>◌, raise, modify}
use wanderra_os.ExecutionContext.Contracts.{ExecutionContext, ContextFailure}
use wanderra_os.ExecutionContext.Models.{ContextSession}
use wanderra_os.ExecutionContext.Repository.{require_workspace}
use wanderra_os.ExecutionContext.Service.{placement, apply}
use wanderra_os.ExecutionContext.Transactions.{applied, apply-require_workspace}

abbrev context : ExecutionContext
context = record {
  request = record { request_id = codes "r"; correlation_id = codes "c" };
  actor = record {
    actor_id = 5;
    session_id = 6;
    membership_id = 7;
    authorization_decision_id = 8;
    delegation_id = none;
  };
  tenant = record { organization_id = 2; workspace_id = 1; cell_id = 3 };
  version = 1;
}

abbrev session : ContextSession ℕ
session = record {
  workspaces =
      record { workspace_id = 1; organization_id = 2; cell_id = 3; is_closed = false } ∷ [];
  cells = record { id = 3; is_active = true } ∷ [];
  contents = 10;
  settings = [];
  info = none;
  current = none;
  in_transaction = false;
}

-- A block that writes, and then raises.
abbrev block : Action (ContextSession ℕ) ContextFailure ℕ
block = modify (λ s. record s { contents = 11 }) >> raise (ContextFailure.raised (codes "e"))

-- A commit where the block returns, and a rollback where it raises.
abbrev finish :
    ContextSession ℕ
    → Result ContextFailure ℕ × ContextSession ℕ
    → Result ContextFailure ℕ × ContextSession ℕ
finish before (ok a, s) = (ok a, record s { settings = []; in_transaction = false })
finish before (err e, s) =
    (err e, record s { contents = before.contents; settings = []; in_transaction = false })

abbrev begin :
    Action (ContextSession ℕ) ContextFailure ℕ → Action (ContextSession ℕ) ContextFailure ℕ
begin m s =
    if s.in_transaction
    then (err ContextFailure.transaction_open, s)
    else finish s (m (record s { in_transaction = true }))

abbrev started : ContextSession ℕ
started = record session { in_transaction = true }

started-applied : apply context started ≡ (ok tt, applied context started)
unfolding apply ◌>>=◌ placement find
started-applied = refl

apply-require_workspace_example :
    (require_workspace (applied context started).info context 9 ≡ ok tt) ↔ ◌≡◌ {A = ℕ} 9 1
apply-require_workspace_example =
    apply-require_workspace context started (applied context started) 9 started-applied
