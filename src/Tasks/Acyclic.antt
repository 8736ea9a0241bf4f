-- ===== src/Tasks/Acyclic.antt =====
-- `_creates_cycle` of app/tasks/service.py decides whether a path leads from the dependency to the
-- task.
use wanderra_os.Base.{
  ℕ, suc, ◌+◌, ◌≡◌, refl, sym, subst, true, false, ◌||◌, List, [], ◌∷◌, ◌++◌, length, ◌==◌,
  if◌then◌else◌, arith, Bool-cases, inl, inr, ◌⊎◌,
}
use wanderra_os.Tasks.Cycle.{Edge, is_visited, successors}

abbrev pub HasEdge : List Edge → ℕ → ℕ → Type 0
HasEdge [] a b = ⊥
HasEdge ((source, target) ∷ edges) a b = ((source ≡ a) × (target ≡ b)) ⊎ HasEdge edges a b

-- A path along the edges, of any length.
pub data PathTo (edges : List Edge) (goal : ℕ) : ℕ → Type 0 where
  here : PathTo edges goal goal
  step : (a b : ℕ) → HasEdge edges a b → PathTo edges goal b → PathTo edges goal a

-- The edges whose source is not visited.
abbrev pub open_edges : List Edge → List ℕ → ℕ
open_edges [] visited = 0
open_edges ((source, target) ∷ edges) visited =
    let rest = open_edges edges visited in if is_visited source visited then rest else suc rest

pub open_edges-visit :
    (edges : List Edge) (visited : List ℕ) (c : ℕ)
    → is_visited c visited ≡ false
    → open_edges edges (c ∷ visited) + length (successors c edges) ≡ open_edges edges visited
unfolding successors
open_edges-visit [] visited c fresh = refl
open_edges-visit ((source, target) ∷ edges) visited c fresh =
    let rest = open_edges-visit edges visited c fresh in
    elim (Bool-cases (source == c)) [
      | inl same ↦
          let equal : source ≡ c = ground arith in
          let unseen : is_visited source visited ≡ false =
            subst (λ x. is_visited x visited ≡ false) (sym equal) fresh in
          rw (same, unseen) (omega (arith, rest))
      | inr differ ↦ elim (Bool-cases (is_visited source visited)) [
        | inl seen ↦ rw (differ, seen) rest
        | inr unseen ↦ rw (differ, unseen) (omega (arith, rest))
      ]
    ]

pub open_edges-none : (edges : List Edge) → open_edges edges [] ≡ length edges
open_edges-none [] = refl
open_edges-none ((source, target) ∷ edges) = omega (arith, open_edges-none edges)

pub successors-HasEdge :
    (a b : ℕ) (edges : List Edge) → is_visited b (successors a edges) ≡ true → HasEdge edges a b
unfolding successors
successors-HasEdge a b [] e = absurd (cc)
successors-HasEdge a b ((source, target) ∷ edges) e = elim (Bool-cases (source == a)) [
  | inl same ↦ elim (Bool-cases (b == target)) [
    | inl hit ↦ inl (ground arith, ground arith)
    | inr miss ↦ inr (successors-HasEdge a b edges (rw (same, miss) at e))
  ]
  | inr differ ↦ inr (successors-HasEdge a b edges (rw differ at e))
]

pub HasEdge-successors :
    (a b : ℕ) (edges : List Edge) → HasEdge edges a b → is_visited b (successors a edges) ≡ true
unfolding successors
HasEdge-successors a b [] e = absurd e
HasEdge-successors a b ((source, target) ∷ edges) (inl (s, t)) = ground arith
HasEdge-successors a b ((source, target) ∷ edges) (inr later) =
    ground (arith, HasEdge-successors a b edges later)

pub is_visited-append :
    (n : ℕ) (xs ys : List ℕ) → is_visited n (xs ++ ys) ≡ (is_visited n xs || is_visited n ys)
is_visited-append n [] ys = refl
is_visited-append n (x ∷ xs) ys = ground (arith, is_visited-append n xs ys)
