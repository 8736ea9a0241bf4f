-- ===== src/ExecutionContext/Repository.antt =====
-- app/execution_context/repository.py: the check that every repository call makes.
use wanderra_os.Base.{ℕ, not, Option, ◌==◌}
use wanderra_os.Base.Result.{Result, ◌>>=◌, ◌>>◌, raise_if, some_or}
use wanderra_os.ExecutionContext.Contracts.{ExecutionContext, ContextFailure, context_eq}

-- `bound` is the context in `session.info`.
unfoldable pub require_workspace :
    Option ExecutionContext → ExecutionContext → ℕ → Result ContextFailure (Unit {0})
require_workspace bound context workspace_id = do
  found ← some_or bound ContextFailure.context_unbound
  raise_if (not (context_eq found context)) ContextFailure.context_differs
  raise_if (not (workspace_id == context.tenant.workspace_id)) ContextFailure.cross_workspace
