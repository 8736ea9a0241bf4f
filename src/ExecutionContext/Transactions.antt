-- ===== src/ExecutionContext/Transactions.antt =====
-- `transaction` of app/execution_context/service.py: what holds inside the block, and what is left
-- behind it.
use wanderra_os.Base.{
  Bool, Option, ℕ, ◌≡◌, ◌↔◌, refl, sym, ap, ◌∙◌, true, false, none, some, ◌==◌, arith, Bool-cases,
  inl, inr,
}
use wanderra_os.Base.Result.{Result, ok}
use wanderra_os.Base.Action.{Action, ◌>>=◌, ◌>>◌, modify, guard-inv, some-inv, gets-pass}
use wanderra_os.ExecutionContext.Contracts.{ExecutionContext, ContextFailure, context_eq_refl}
use wanderra_os.ExecutionContext.Models.{WorkspacePlace, CellPlace, ContextSession}
use wanderra_os.ExecutionContext.Repository.{require_workspace}
use wanderra_os.ExecutionContext.Service.{placement, context_settings, set_configs, apply, released}

-- The context's workspace is placed where the context says, and open, in an active cell.
pub record IsPlaced {D : Type 0} (c : ExecutionContext) (s : ContextSession D) : Type 0 where
  pub workspace : WorkspacePlace
  pub cell : CellPlace
  pub found : placement c.tenant.workspace_id s ≡ some (workspace, cell)
  pub same_organization : workspace.organization_id ≡ c.tenant.organization_id
  pub same_cell : workspace.cell_id ≡ c.tenant.cell_id
  pub open_workspace : workspace.is_closed ≡ false
  pub active_cell : cell.is_active ≡ true

-- The session with the context applied.
abbrev pub applied : {D : Type 0} → ExecutionContext → ContextSession D → ContextSession D
applied c s = record s { settings = set_configs (context_settings c) s.settings; info = some c }

two_writes :
    {S E : Type 0} (f g : S → S) (s : S) {t : S}
    → (modify {E = E} f >> modify g) s ≡ (ok tt, t)
    → t ≡ g (f s)
unfolding ◌>>=◌
two_writes f g s e = sym (ap (λ x. x.1) e)

module _ {D : Type 0} (c : ExecutionContext) where
  apply-inv :
      (s : ContextSession D) {t : ContextSession D}
      → apply c s ≡ (ok tt, t)
      → IsPlaced c s × (t ≡ applied c s)
  unfolding apply
  apply-inv s e =
      let (started, e1) = guard-inv _ _ _ s (sym (gets-pass _ _ s) ∙ e) in
      let ((workspace, cell), found, e2) = some-inv _ _ _ s (sym (gets-pass _ _ s) ∙ e1) in
      let (same, e3) = guard-inv _ _ _ s e2 in
      let (live, e4) = guard-inv _ _ _ s e3 in
      (
        record {
          workspace = workspace;
          cell = cell;
          found = found;
          same_organization = ground (arith, same);
          same_cell = ground (arith, same);
          open_workspace = ground (arith, live);
          active_cell = ground (arith, live);
        },
        two_writes _ _ s e4,
      )

-- What the documentation of `AsyncSession.begin` says, where the commit does not fail: the block
-- runs inside a transaction, what it returns or raises is what the whole returns or raises, and
-- `session.info` is left alone.
pub record IsBegin {D A : Type 0}
    (begin : Action (ContextSession D) ContextFailure A
      → Action (ContextSession D) ContextFailure A)
    : Type 0 where
  pub runs :
      (m : Action (ContextSession D) ContextFailure A) (s : ContextSession D)
      → s.in_transaction ≡ false
      → (begin m s).0 ≡ (m (record s { in_transaction = true })).0
  pub keeps_info :
      (m : Action (ContextSession D) ContextFailure A) (s : ContextSession D)
      → s.in_transaction ≡ false
      → (begin m s).1.info ≡ (m (record s { in_transaction = true })).1.info

-- The session in which the block of a transaction begins: in a transaction, with the context
-- bound to the request, set for the database and attached to the session.
abbrev pub entered : {D : Type 0} → ExecutionContext → ContextSession D → ContextSession D
entered c s = applied c (record s { current = some c; in_transaction = true })

-- A transaction around `body` that was called in `s` and ended in `t` with the result `r`.
pub record HasEnded {D A : Type 0} (c : ExecutionContext)
    (body : Action (ContextSession D) ContextFailure A) (s : ContextSession D)
    (r : Result ContextFailure A) (t : ContextSession D) : Type 0 where
  pub unbound : t.current ≡ s.current
  pub detached : s.info ≡ none → t.info ≡ none
  pub placed : (a : A) → r ≡ ok a → IsPlaced c s
  pub ran : IsPlaced c s → r ≡ (body (entered c s)).0

module _ {D A : Type 0} (c : ExecutionContext)
    (body : Action (ContextSession D) ContextFailure A) where
  abbrev inside : Action (ContextSession D) ContextFailure A
  inside = apply c >> released body

  moved :
      (s : ContextSession D) (current : Option ExecutionContext) (started : Bool)
      → IsPlaced c s
      → IsPlaced c (record s { current = current; in_transaction = started })
  unfolding placement
  moved s current started p = record {
    workspace = p.workspace;
    cell = p.cell;
    found = p.found;
    same_organization = p.same_organization;
    same_cell = p.same_cell;
    open_workspace = p.open_workspace;
    active_cell = p.active_cell;
  }

-- Behind a call of `apply` that returns, the repositories' check passes for the workspace of the
-- context and for no other.
pub apply-require_workspace :
    {D : Type 0} (c : ExecutionContext) (s t : ContextSession D) (workspace_id : ℕ)
    → apply c s ≡ (ok tt, t)
    → (require_workspace t.info c workspace_id ≡ ok tt) ↔ (workspace_id ≡ c.tenant.workspace_id)
unfolding require_workspace
apply-require_workspace c s t workspace_id e =
    let bound : t.info ≡ some c = ap (λ (x : ContextSession _). x.info) (apply-inv c s e).1 in
    rw (bound, context_eq_refl c)
      (elim (Bool-cases (workspace_id == c.tenant.workspace_id)) [
        | inl here ↦ ((λ _. ground (arith, here)), (λ _. rw here refl))
        | inr away ↦
            ((λ h. absurd (let bad = rw away at h in cc)), (λ h. absurd (ground (arith, h, away))))
      ])
