-- ===== src/ExecutionContext/Models.antt =====
-- The session as app/execution_context sees it: the tables that place a workspace, the settings of
-- the transaction, the context bound to the session and to the request, and all other data.
use wanderra_os.Base.{ℕ, Bool, Option, List}
use wanderra_os.Base.Text.{Text}
use wanderra_os.ExecutionContext.Contracts.{ExecutionContext}

-- The columns of `workspaces` and `cells` that the placement query reads.
pub record WorkspacePlace : Type 0 where
  pub workspace_id : ℕ
  pub organization_id : ℕ
  pub cell_id : ℕ
  pub is_closed : Bool

pub record CellPlace : Type 0 where
  pub id : ℕ
  pub is_active : Bool

-- `info` is `session.info["atlas.execution_context"]`, `current` the context variable, and
-- `settings` what `set_config` has set for the transaction, the latest first.
pub record ContextSession (D : Type 0) : Type 0 where
  pub workspaces : List WorkspacePlace
  pub cells : List CellPlace
  pub contents : D
  pub settings : List (Text × Text)
  pub info : Option ExecutionContext
  pub current : Option ExecutionContext
  pub in_transaction : Bool
