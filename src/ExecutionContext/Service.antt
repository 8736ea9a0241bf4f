-- ===== src/ExecutionContext/Service.antt =====
-- app/execution_context/service.py: the context applied to a transaction, and the transaction.
use wanderra_os.Base.{ℕ, not, ◌||◌, Option, none, some, List, [], ◌∷◌, ◌==◌}
use wanderra_os.Base.Text.{Text, codes}
use wanderra_os.Base.Json.{str_uuid}
use wanderra_os.Base.Table.{find}
use wanderra_os.Base.Action.{Action, ◌>>=◌, ◌>>◌, raise_if, gets, modify, some_or}
use wanderra_os.ExecutionContext.Contracts.{ExecutionContext, ContextFailure}
use wanderra_os.ExecutionContext.Models.{WorkspacePlace, CellPlace, ContextSession}

-- `current_execution_context`
unfoldable pub current_execution_context :
    {D : Type 0} → Action (ContextSession D) ContextFailure ExecutionContext
current_execution_context = do
  current ← gets (λ s. s.current)
  some_or current ContextFailure.context_absent

-- The workspace's row and its cell's, as the placement query joins them.
abbrev pub joined : Option WorkspacePlace → List CellPlace → Option (WorkspacePlace × CellPlace)
joined none cells = none
joined (some w) cells = elim (find (λ c. c.id == w.cell_id) cells) [
  | none ↦ none
  | some c ↦ some (w, c)
]

unfoldable pub placement : {D : Type 0} → ℕ → ContextSession D → Option (WorkspacePlace × CellPlace)
placement workspace_id s = joined (find (λ w. w.workspace_id == workspace_id) s.workspaces) s.cells

abbrev delegation_setting : Option ℕ → List (Text × Text)
delegation_setting none = []
delegation_setting (some id) = (codes "atlas.delegation_id", str_uuid id) ∷ []

unfoldable pub context_settings : ExecutionContext → List (Text × Text)
context_settings c =
    (codes "atlas.workspace_id", str_uuid c.tenant.workspace_id)
    ∷ (codes "atlas.organization_id", str_uuid c.tenant.organization_id)
    ∷ (codes "atlas.cell_id", str_uuid c.tenant.cell_id)
    ∷ (codes "atlas.actor_id", str_uuid c.actor.actor_id)
    ∷ (codes "atlas.session_id", str_uuid c.actor.session_id)
    ∷ (codes "atlas.membership_id", str_uuid c.actor.membership_id)
    ∷ (codes "atlas.authorization_decision_id", str_uuid c.actor.authorization_decision_id)
    ∷ (codes "atlas.request_id", c.request.request_id)
    ∷ (codes "atlas.correlation_id", c.request.correlation_id)
    ∷ delegation_setting c.actor.delegation_id

-- `set_config(key, value, TRUE)` for each setting, in turn.
abbrev pub set_configs : List (Text × Text) → List (Text × Text) → List (Text × Text)
set_configs [] settings = settings
set_configs (x ∷ xs) settings = set_configs xs (x ∷ settings)

-- `apply`
unfoldable pub apply :
    {D : Type 0} → ExecutionContext → Action (ContextSession D) ContextFailure (Unit {0})
apply context = do
  started ← gets (λ s. s.in_transaction)
  raise_if (not started) ContextFailure.no_transaction
  found ← gets (placement context.tenant.workspace_id)
  (workspace, cell) ← some_or found ContextFailure.workspace_unknown
  raise_if
      (not (workspace.organization_id == context.tenant.organization_id)
        || not (workspace.cell_id == context.tenant.cell_id))
      ContextFailure.placement_differs
  raise_if (workspace.is_closed || not cell.is_active) ContextFailure.placement_inactive
  modify (λ s. record s { settings = set_configs (context_settings context) s.settings })
  modify (λ s. record s { info = some context })

-- `bind`, around the block of the `with` statement: the context variable is set, and reset whether
-- the block returns or raises.
unfoldable pub bind :
    {D A : Type 0}
    → ExecutionContext
    → Action (ContextSession D) ContextFailure A
    → Action (ContextSession D) ContextFailure A
bind context block s =
    let (r, t) = block (record s { current = some context }) in
    (r, record t { current = s.current })

-- The `try` statement of `transaction`, which takes the context off the session.
unfoldable pub released :
    {D A : Type 0}
    → Action (ContextSession D) ContextFailure A
    → Action (ContextSession D) ContextFailure A
released body s = let (r, t) = body s in (r, record t { info = none })

-- `transaction`, around the block `body` of the `async with` statement. `begin` is the context
-- manager `session.begin()` of SQLAlchemy, around a block.
unfoldable pub transaction :
    {D A : Type 0}
    → (Action (ContextSession D) ContextFailure A → Action (ContextSession D) ContextFailure A)
    → ExecutionContext
    → Action (ContextSession D) ContextFailure A
    → Action (ContextSession D) ContextFailure A
unfolding apply bind released
transaction begin context body = bind context (begin (apply context >> released body))
