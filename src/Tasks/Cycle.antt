-- ===== src/Tasks/Cycle.antt =====
-- app/tasks/service.py: `_creates_cycle`, the search for a path from a new dependency to the task.
use wanderra_os.Base.{
  ℕ, zero, suc, ◌+◌, Bool, true, false, not, ◌&&◌, ◌||◌, Option, none, some, List, [], ◌∷◌, ◌++◌,
  length, ltb, ◌==◌, if◌then◌else◌,
}

abbrev pub Edge : Type 0
Edge = ℕ × ℕ

abbrev pub is_visited : ℕ → List ℕ → Bool
is_visited n [] = false
is_visited n (v ∷ visited) = (n == v) || is_visited n visited

-- `graph.get(current, ())`. A set has no order, so the order of the edges stands for it.
unfoldable pub successors : ℕ → List Edge → List ℕ
successors n [] = []
successors n ((source, target) ∷ edges) =
    let rest = successors n edges in if source == n then target ∷ rest else rest

abbrev pub visit_limit : ℕ
visit_limit = 10000

-- One round of the loop behind the comparison: what is pending, and what is visited.
unfoldable pub expand : ℕ → List Edge → List ℕ → List ℕ → List ℕ × List ℕ
unfolding successors
expand current edges pending visited =
    if not (is_visited current visited) && ltb (length visited) visit_limit
    then (successors current edges ++ pending, current ∷ visited)
    else (pending, visited)

-- The loop, with the rounds that are left; the head of the list is the end that is popped. No
-- answer means that the rounds ran out.
unfoldable pub search : ℕ → ℕ → List Edge → List ℕ → List ℕ → Option Bool
search zero task_id edges pending visited = none
search (suc rounds) task_id edges [] visited = some false
search (suc rounds) task_id edges (current ∷ pending) visited =
    let (pending', visited') = expand current edges pending visited in
    let rest = search rounds task_id edges pending' visited' in
    if current == task_id then some true else rest

-- `_creates_cycle`, with two rounds more than there are edges.
unfoldable pub creates_cycle : ℕ → ℕ → List Edge → Option Bool
creates_cycle task_id dependency_id edges =
    search (length edges + 2) task_id edges (dependency_id ∷ []) []
