-- ===== src/Tasks/Dependencies.antt =====
-- `add_dependency` of app/tasks/service.py keeps the dependencies of a workspace free of cycles.
use wanderra_os.Base.{
  ◌+◌, ℕ, ◌<◌, ◌≡◌, refl, sym, ap, subst, ◌∙◌, Bool, true, false, List, [], ◌∷◌, ◌++◌, map, length,
  ◌==◌, arith, Bool-cases, inl, inr, ◌⊎◌,
}
use wanderra_os.Base.Table.{select}
use wanderra_os.Base.Result.{Result, ok}
use wanderra_os.Base.Action.{◌>>=◌, modify, bind-inv, guard-inv, pure-inv, gets-pass}
use wanderra_os.Tasks.Contracts.{TaskFailure}
use wanderra_os.Tasks.Models.{Task, TaskDependency, TaskEvent, TaskStore, TaskContext}
use wanderra_os.Tasks.Repository
use wanderra_os.Tasks.Repository.{
  insert_outbox, outbox_taken, is_task, insert_dependency, save_task,
}
use wanderra_os.Tasks.Guards.{require, require_task, changed, record_task, task_outbox}
use wanderra_os.Tasks.Locked.{locked-inv}
use wanderra_os.Tasks.Cycle.{Edge, visit_limit, creates_cycle}
use wanderra_os.Tasks.Acyclic.{HasEdge, PathTo, here, step}
use wanderra_os.Tasks.Search.{creates_cycle-PathTo}
use wanderra_os.Tasks.Details.{add_dependency, prohibits}

-- No edge is closed to a cycle by a path that leads from its target to its source.
abbrev pub IsAcyclic : List Edge → Type 0
IsAcyclic edges = (a b : ℕ) → HasEdge edges a b → ¬ PathTo edges a b

PathTo-join :
    (edges : List Edge) (a g x : ℕ) → PathTo edges a x → PathTo edges g a → PathTo edges g x
PathTo-join edges a g x here q = q
PathTo-join edges a g x (step _ b edge p) q = step x b edge (PathTo-join edges a g b p q)

HasEdge-append :
    (edges : List Edge) (s t a b : ℕ)
    → HasEdge (edges ++ ((s, t) ∷ [])) a b
    → HasEdge edges a b ⊎ ((s ≡ a) × (t ≡ b))
HasEdge-append [] s t a b (inl e) = inr e
HasEdge-append [] s t a b (inr e) = absurd e
HasEdge-append ((u, v) ∷ edges) s t a b (inl e) = inl (inl e)
HasEdge-append ((u, v) ∷ edges) s t a b (inr e) = elim (HasEdge-append edges s t a b e) [
  | inl old ↦ inl (inr old)
  | inr new ↦ inr new
]

-- A path over one edge more either does without it or passes through both its ends.
PathTo-split :
    (edges : List Edge) (s t g x : ℕ)
    → PathTo (edges ++ ((s, t) ∷ [])) g x
    → PathTo edges g x ⊎ (PathTo edges s x × PathTo edges g t)
PathTo-split edges s t g x here = inl here
PathTo-split edges s t g x (step _ b edge p) = elim (HasEdge-append edges s t x b edge) [
  | inl old ↦ elim (PathTo-split edges s t g b p) [
    | inl q ↦ inl (step x b old q)
    | inr (q, r) ↦ inr (step x b old q, r)
  ]
  | inr (same, target) ↦
      let start : PathTo edges s x = subst (PathTo edges s) same here in
      elim (PathTo-split edges s t g b p) [
        | inl q ↦ inr (start, subst (PathTo edges g) (sym target) q)
        | inr (q, r) ↦ inr (start, r)
      ]
]

IsAcyclic-append :
    (edges : List Edge) (s t : ℕ)
    → IsAcyclic edges
    → ¬ PathTo edges s t
    → IsAcyclic (edges ++ ((s, t) ∷ []))
IsAcyclic-append edges s t acyclic free a b edge path = elim (HasEdge-append edges s t a b edge) [
  | inl old ↦ elim (PathTo-split edges s t a b path) [
    | inl p ↦ acyclic a b old p
    | inr (p, q) ↦ free (PathTo-join edges a s t q (step a b old p))
  ]
  | inr (same, target) ↦ elim (PathTo-split edges s t a b path) [
    | inl p ↦
        free
          (subst (λ x. PathTo edges s x) (sym target) (subst (λ y. PathTo edges y b) (sym same) p))
    | inr (p, q) ↦ free (subst (λ x. PathTo edges s x) (sym target) p)
  ]
]

map-select-append :
    {A : Type 0} {B : Type 0} (p : A → Bool) (f : A → B) (rows : List A) (d : A)
    → p d ≡ true
    → map f (select p (rows ++ (d ∷ []))) ≡ map f (select p rows) ++ (f d ∷ [])
unfolding select
map-select-append p f [] d mine = rw mine refl
map-select-append p f (x ∷ rows) d mine =
    let rest = map-select-append p f rows d mine in
    elim (Bool-cases (p x)) [
      | inl hit ↦ rw hit (ap (λ xs. f x ∷ xs) rest)
      | inr miss ↦ rw miss rest
    ]

module _ (context : TaskContext) where
  require_task-inv :
      (id : ℕ) (s : TaskStore) {r : Task} {t : TaskStore}
      → require_task context id s ≡ (ok r, t)
      → s ≡ t
  unfolding require_task ◌>>=◌
  require_task-inv id s e = ground (arith, e)

  changed-dependencies :
      (r : Task) (event : TaskEvent) (now : ℕ) (s : TaskStore)
      → (changed context r event now s).1.dependencies ≡ s.dependencies
  unfolding changed record_task save_task insert_outbox ◌>>=◌
  changed-dependencies r event now s =
      let row =
        task_outbox context (record r { version = r.version + 1; updated_at = now }) event now in
      elim (Bool-cases (outbox_taken row s.outbox)) [
        | inl taken ↦ rw taken refl
        | inr free ↦ rw free refl
      ]

  insert_dependency-inv :
      (d : TaskDependency) (s : TaskStore) {t : TaskStore}
      → insert_dependency context d s ≡ (ok tt, t)
      → t.dependencies ≡ s.dependencies ++ (d ∷ [])
  unfolding insert_dependency modify
  insert_dependency-inv d s e =
      let (_, g1) = guard-inv _ _ _ s e in
      let (_, g2) = guard-inv _ _ _ s g1 in
      let (_, g3) = guard-inv _ _ _ s g2 in
      let e1 = sym (gets-pass _ _ s) ∙ g3 in
      let (fresh, e2) = guard-inv _ _ _ s e1 in
      sym (ap (λ (x : Result TaskFailure (Unit {0}) × TaskStore). x.1.dependencies) e2)

  dependencies-append :
      (d : TaskDependency) (s t : TaskStore)
      → d.tenant.workspace_id ≡ context.tenant.workspace_id
      → t.dependencies ≡ s.dependencies ++ (d ∷ [])
      → Repository.dependencies context t
        ≡ Repository.dependencies context s ++ ((d.task_id, d.depends_on_task_id) ∷ [])
  unfolding Repository.dependencies
  dependencies-append d s t mine e = rw e (
      map-select-append
        (λ (x : TaskDependency). x.tenant.workspace_id == context.tenant.workspace_id)
        (λ x. (x.task_id, x.depends_on_task_id)) s.dependencies d (rw mine (ground arith)))

  abbrev new_dependency : ℕ → ℕ → TaskDependency
  new_dependency task_id depends_on = record {
    tenant = context.tenant;
    task_id = task_id;
    depends_on_task_id = depends_on;
    created_by_user_id = context.actor_id;
  }

  -- A call that returned has passed the search, and has inserted one row.
  add_dependency-inv :
      (task_id depends_on expected : ℕ) (s : TaskStore) {r : TaskDependency} {t : TaskStore}
      → add_dependency context task_id depends_on expected s ≡ (ok r, t)
      → (prohibits (creates_cycle task_id depends_on (Repository.dependencies context s)) ≡ false)
        × (t.dependencies ≡ s.dependencies ++ (new_dependency task_id depends_on ∷ []))
  unfolding add_dependency require
  add_dependency-inv task_id depends_on expected s {r} {t} e =
      let (allowed, e1) = guard-inv _ _ _ s e in
      let (x, s1, l, e2) = bind-inv _ _ s e1 in
      let (y, s2, l2, e3) = bind-inv _ _ s1 e2 in
      let e4 = sym (gets-pass _ _ s2) ∙ e3 in
      let (refused, e5) = guard-inv _ _ _ s2 e4 in
      let (u, s3, l3, e6) = bind-inv _ _ s2 e5 in
      let (v, s4, l4, e7) = bind-inv _ _ s3 e6 in
      let (same, end) = pure-inv _ s4 e7 in
      let (start, row) = locked-inv context task_id expected s l in
      let found = row.same_id in
      let unmoved : s ≡ s2 = start ∙ require_task-inv depends_on s1 l2 in
      let changes =
        sym (ap (λ (p : Result TaskFailure Task × TaskStore). p.1.dependencies) l4)
        ∙ changed-dependencies x TaskEvent.dependency_added context.clock s3 in
      let inserts = insert_dependency-inv (new_dependency x.id depends_on) s2 l3 in
      (
        subst
            (λ u.
              prohibits (creates_cycle task_id depends_on (Repository.dependencies context u))
              ≡ false)
            (sym unmoved) (ground (arith, refused)),
        ap (λ (u : TaskStore). u.dependencies) (sym end)
            ∙ changes
            ∙ inserts
            ∙ ap (λ (u : TaskStore). u.dependencies ++ (new_dependency x.id depends_on ∷ []))
                (sym unmoved)
            ∙ ap (λ i. s.dependencies ++ (new_dependency i depends_on ∷ [])) found,
      )

  -- If `add_dependency` returns, on fewer than 10,000 dependencies that have no cycle, then the
  -- dependencies of the workspace afterwards are those before and the new one, and have no cycle.
  pub add_dependency-IsAcyclic :
      (task_id depends_on expected : ℕ) (s : TaskStore) {r : TaskDependency} {t : TaskStore}
      → IsAcyclic (Repository.dependencies context s)
      → length (Repository.dependencies context s) < visit_limit
      → add_dependency context task_id depends_on expected s ≡ (ok r, t)
      → (Repository.dependencies context t
          ≡ Repository.dependencies context s ++ ((task_id, depends_on) ∷ []))
        × IsAcyclic (Repository.dependencies context t)
  add_dependency-IsAcyclic task_id depends_on expected s {r} {t} acyclic few e =
      let edges = Repository.dependencies context s in
      let (passed, inserted) = add_dependency-inv task_id depends_on expected s e in
      let grown = dependencies-append (new_dependency task_id depends_on) s t refl inserted in
      let (answer, answers, reached, unreached) =
        creates_cycle-PathTo task_id depends_on edges few in
      let refuses : answer ≡ false = rw answers at passed in
      (
        grown,
        subst IsAcyclic (sym grown)
            (IsAcyclic-append edges task_id depends_on acyclic (unreached refuses)),
      )
