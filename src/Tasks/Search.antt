-- ===== src/Tasks/Search.antt =====
-- The loop of `_creates_cycle` of app/tasks/service.py ends, and its answer is the existence of a
-- path.
use wanderra_os.Base.{
  ℕ, zero, suc, ◌+◌, ◌≤◌, ◌<◌, ◌≡◌, refl, sym, subst, Bool, true, false, ◌||◌, some, List, [], ◌∷◌,
  ◌++◌, length, length-append, ltb, ◌==◌, arith, Bool-cases, inl, inr,
}
use wanderra_os.Tasks.Cycle.{
  Edge, is_visited, successors, visit_limit, expand, search, creates_cycle,
}
use wanderra_os.Tasks.Acyclic.{
  HasEdge, PathTo, here, step, open_edges, open_edges-visit, open_edges-none, successors-HasEdge,
  HasEdge-successors, is_visited-append,
}

module _ (task_id : ℕ) (edges : List Edge) where
  -- What holds before each round: a successor of a visited task is visited or pending, the task
  -- itself is not visited, and the visits that are still possible stay within the limit.
  record Round (pending visited : List ℕ) : Type 0 where
    closed :
        (a b : ℕ)
        → is_visited a visited ≡ true
        → HasEdge edges a b
        → is_visited b visited || is_visited b pending ≡ true
    unvisited : is_visited task_id visited ≡ false
    within : length visited + length pending + open_edges edges visited ≤ visit_limit

  -- What an answer says: a path leads from a pending task, or from no task that was met.
  record Answered (pending visited : List ℕ) (answer : Bool) : Type 0 where
    found : answer ≡ true → (n : ℕ) × (is_visited n pending ≡ true) × PathTo edges task_id n
    excluded :
        answer ≡ false
        → (n : ℕ) → is_visited n pending || is_visited n visited ≡ true
        → ¬ PathTo edges task_id n

  -- Nothing leaves a closed set.
  closed-PathTo :
      (visited : List ℕ) (n : ℕ)
      → Round [] visited
      → is_visited n visited ≡ true
      → PathTo edges task_id n
      → ⊥
  closed-PathTo visited n round seen here = absurd (ground (arith, round.unvisited))
  closed-PathTo visited n round seen (step _ b edge path) =
      closed-PathTo visited b round (ground (arith, round.closed n b seen edge)) path

  Round-fresh :
      (current : ℕ) (pending visited : List ℕ)
      → Round (current ∷ pending) visited
      → current == task_id ≡ false
      → is_visited current visited ≡ false
      → Round (successors current edges ++ pending) (current ∷ visited)
  Round-fresh current pending visited round other fresh = record {
    closed = λ a b seen edge. closed_fresh a b seen edge;
    unvisited = ground (arith, round.unvisited);
    within = omega (
      arith,
      round.within,
      open_edges-visit edges visited current fresh,
      length-append (successors current edges) pending,
    );
  }
    where
      closed_fresh :
          (a b : ℕ)
          → is_visited a (current ∷ visited) ≡ true
          → HasEdge edges a b
          → is_visited b (current ∷ visited) || is_visited b (successors current edges ++ pending)
            ≡ true
      closed_fresh a b seen edge = elim (Bool-cases (a == current)) [
        | inl same ↦
            let equal : a ≡ current = ground arith in
            let hit =
              HasEdge-successors current b edges (subst (λ x. HasEdge edges x b) equal edge) in
            ground (arith, hit, is_visited-append b (successors current edges) pending)
        | inr differ ↦
            let before = round.closed a b (ground arith) edge in
            ground (arith, before, is_visited-append b (successors current edges) pending)
      ]

  Round-seen :
      (current : ℕ) (pending visited : List ℕ)
      → Round (current ∷ pending) visited
      → is_visited current visited ≡ true
      → Round pending visited
  Round-seen current pending visited round seen = record {
    closed = λ a b there edge. elim (Bool-cases (b == current)) [
      | inl same ↦
          let equal : b ≡ current = ground arith in
          let known = subst (λ x. is_visited x visited ≡ true) (sym equal) seen in rw known refl
      | inr differ ↦ ground (arith, round.closed a b there edge)
    ];
    unvisited = round.unvisited;
    within = omega (arith, round.within);
  }

  Answered-seen :
      (current : ℕ) (pending visited : List ℕ) (answer : Bool)
      → is_visited current visited ≡ true
      → Answered pending visited answer
      → Answered (current ∷ pending) visited answer
  Answered-seen current pending visited answer seen a = record {
    found = λ yes. (let (n, there, path) = a.found yes in (n, ground (arith, there), path));
    excluded = λ no n met path. elim (Bool-cases (n == current)) [
      | inl same ↦
          let equal : n ≡ current = ground arith in
          let known = subst (λ x. is_visited x visited ≡ true) (sym equal) seen in
          a.excluded no n (ground (arith, known)) path
      | inr differ ↦ a.excluded no n (ground (arith, met)) path
    ];
  }

  Answered-fresh :
      (current : ℕ) (pending visited : List ℕ) (answer : Bool)
      → Answered (successors current edges ++ pending) (current ∷ visited) answer
      → Answered (current ∷ pending) visited answer
  Answered-fresh current pending visited answer a = record {
    found = λ yes.
        let (n, there, path) = a.found yes in
        elim (Bool-cases (is_visited n (successors current edges))) [
          | inl next ↦
              (current, ground arith, step current n (successors-HasEdge current n edges next) path)
          | inr far ↦ (
            n,
            ground (arith, there, is_visited-append n (successors current edges) pending),
            path,
          )
        ];
    excluded = λ no n met path.
        a.excluded no n
          (ground (arith, met, is_visited-append n (successors current edges) pending)) path;
  }

  -- With more rounds than steps are left to take, the search answers, and rightly.
  search-Answered :
      (rounds : ℕ) (pending visited : List ℕ)
      → length pending + open_edges edges visited < rounds
      → Round pending visited
      → (answer : Bool) × (search rounds task_id edges pending visited ≡ some answer)
        × Answered pending visited answer
  unfolding search expand
  search-Answered zero pending visited fuel round = absurd (omega arith)
  search-Answered (suc rounds) [] visited fuel round = (
    false,
    refl,
    record {
      found = λ e. absurd (cc);
      excluded = λ _ n met path. closed-PathTo visited n round (ground (arith, met)) path;
    },
  )
  search-Answered (suc rounds) (current ∷ pending) visited fuel round =
      elim (Bool-cases (current == task_id)) [
        | inl goal ↦
            let equal : current ≡ task_id = ground arith in
            (
              true,
              rw goal refl,
              record {
                found = λ _. (current, ground arith, subst (PathTo edges task_id) (sym equal) here);
                excluded = λ e. absurd (cc);
              },
            )
        | inr other ↦ elim (Bool-cases (is_visited current visited)) [
          | inl seen ↦
              let (answer, e, answered) =
                search-Answered rounds pending visited (omega arith)
                  (Round-seen current pending visited round seen) in
              (
                answer,
                rw (other, seen) e,
                Answered-seen current pending visited answer seen answered,
              )
          | inr fresh ↦
              let next = Round-fresh current pending visited round other fresh in
              let room : ltb (length visited) visit_limit ≡ true = ground (arith, round.within) in
              let (answer, e, answered) =
                search-Answered rounds (successors current edges ++ pending) (current ∷ visited)
                  (omega (
                    arith,
                    open_edges-visit edges visited current fresh,
                    length-append (successors current edges) pending,
                  ))
                  next in
              (
                answer,
                rw (other, fresh, room) e,
                Answered-fresh current pending visited answer answered,
              )
        ]
      ]

-- `_creates_cycle` always answers while there are fewer than 10,000 edges, and answers that there
-- is a cycle exactly when the edges have a path from the dependency to the task.
pub creates_cycle-PathTo :
    (task_id dependency_id : ℕ) (edges : List Edge)
    → length edges < visit_limit
    → (answer : Bool) × (creates_cycle task_id dependency_id edges ≡ some answer)
      × (answer ≡ true → PathTo edges task_id dependency_id)
      × (answer ≡ false → ¬ PathTo edges task_id dependency_id)
unfolding creates_cycle
creates_cycle-PathTo task_id dependency_id edges few =
    let (answer, e, answered) =
      search-Answered task_id edges (length edges + 2) (dependency_id ∷ []) []
        (omega (arith, open_edges-none edges))
        (record {
          closed = λ a b seen edge. absurd (cc);
          unvisited = refl;
          within = omega (arith, open_edges-none edges, few);
        }) in
    (
      answer,
      e,
      λ yes.
          let (n, pending, path) = answered.found yes in
          let same : n ≡ dependency_id = ground (arith, pending) in
          subst (PathTo edges task_id) same path,
      λ no. answered.excluded no dependency_id (ground arith),
    )
