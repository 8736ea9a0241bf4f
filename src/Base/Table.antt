-- ===== src/Base/Table.antt =====
-- A database table as a list of rows, oldest first, and the queries that the repositories make.
use Prim.Native.Nat.{ℕ, suc}
use mathlib.Core.Path.{◌≡◌, refl, subst}
use mathlib.Core.Logic.{inl, inr}
use mathlib.Core.Bool.{Bool, true, false}
use mathlib.Core.Option.{Option, none, some}
use mathlib.Core.List.{List, [], ◌∷◌, ◌++◌}
use native.Mathlib.Omega.{arith}
use wanderra_os.Base.Tests.{if◌then◌else◌, Bool-cases}
use wanderra_os.Base.Lists.{All}

module _ {ℓ} {A : Type ℓ} where
  -- `session.scalar(select(…).where(p))`: the first row that satisfies the test.
  unfoldable pub find : (A → Bool) → List A → Option A
  find p [] = none
  find p (r ∷ rs) = if p r then some r else find p rs

  -- An assignment to the attributes of the row that `find p` returns.
  unfoldable pub update : (A → Bool) → (A → A) → List A → List A
  update p f [] = []
  update p f (r ∷ rs) = if p r then f r ∷ rs else r ∷ update p f rs

  -- `session.scalars(select(…).where(p))`
  unfoldable pub select : (A → Bool) → List A → List A
  select p [] = []
  select p (r ∷ rs) = let rest = select p rs in if p r then r ∷ rest else rest

  -- `select(func.count()).where(p)`
  unfoldable pub count_where : (A → Bool) → List A → ℕ
  count_where p [] = 0
  count_where p (r ∷ rs) = let rest = count_where p rs in if p r then suc rest else rest

module _ {ℓ} {A : Type ℓ} where
  -- `order_by`, as a stable insertion sort; `le a b` tells that `a` may stand before `b`.
  unfoldable pub insert_by : (A → A → Bool) → A → List A → List A
  insert_by le a [] = a ∷ []
  insert_by le a (b ∷ bs) = if le a b then a ∷ b ∷ bs else b ∷ insert_by le a bs

  unfoldable pub order_by : (A → A → Bool) → List A → List A
  order_by le [] = []
  order_by le (a ∷ as') = insert_by le a (order_by le as')

module _ {ℓ} {A : Type ℓ} where
  -- The row that a query returns satisfies its test.
  pub find-test : (p : A → Bool) (rs : List A) {r : A} → find p rs ≡ some r → p r ≡ true
  unfolding find
  find-test p [] h = cc
  find-test p (x ∷ rs) h = elim (Bool-cases (p x)) [
    | inl e ↦ ground (arith, e)
    | inr e ↦ find-test p rs (rw e at h)
  ]

pub find-append {ℓ} :
    {A : Type ℓ} (p : A → Bool) (rs ts : List A) {r : A}
    → find p rs ≡ some r
    → find p (rs ++ ts) ≡ some r
unfolding find
find-append p [] ts h = cc
find-append p (x ∷ rs) ts h = elim (Bool-cases (p x)) [
  | inl e ↦ rw e (rw e at h)
  | inr e ↦ rw e (find-append p rs ts (rw e at h))
]

pub find-append_last {ℓ} :
    {A : Type ℓ} (p : A → Bool) (new : A) (rs : List A)
    → find p rs ≡ none
    → p new ≡ true
    → find p (rs ++ (new ∷ [])) ≡ some new
unfolding find
find-append_last p new [] h e = rw e
find-append_last p new (x ∷ rs) h e = elim (Bool-cases (p x)) [
  | inl hit ↦ absurd (ground (arith, hit))
  | inr miss ↦ rw miss (find-append_last p new rs (rw miss at h) e)
]

-- A row that was written over the one that a query finds is found by the query.
pub find-update_self {ℓ} :
    {A : Type ℓ} (p : A → Bool) (new : A) (rs : List A) {r : A}
    → find p rs ≡ some r
    → p new ≡ true
    → find p (update p (λ _. new) rs) ≡ some new
unfolding find update
find-update_self p new [] h e = cc
find-update_self p new (x ∷ rs) h e = elim (Bool-cases (p x)) [
  | inl hit ↦ rw (hit, e)
  | inr miss ↦ rw (miss, miss) (find-update_self p new rs (rw miss at h) e)
]

pub find-append_none {ℓ} :
    {A : Type ℓ} (p : A → Bool) (new : A) (rs : List A)
    → find p rs ≡ none
    → find p (rs ++ (new ∷ [])) ≡ find p (new ∷ [])
unfolding find
find-append_none p new [] h = refl
find-append_none p new (x ∷ rs) h = elim (Bool-cases (p x)) [
  | inl hit ↦ absurd (ground (arith, hit))
  | inr miss ↦ rw miss (find-append_none p new rs (rw miss at h))
]

-- A query passes over a row that was written over one of another query.
pub find-update_skip {ℓ} :
    {A : Type ℓ} (p q : A → Bool) (new : A) (rs : List A)
    → ((r : A) → q r ≡ true → p r ≡ false)
    → p new ≡ false
    → find p (update q (λ _. new) rs) ≡ find p rs
unfolding find update
find-update_skip p q new [] skip e = refl
find-update_skip p q new (x ∷ rs) skip e = elim (Bool-cases (q x)) [
  | inl hit ↦ rw (hit, e, skip x hit) refl
  | inr miss ↦ rw (miss, find-update_skip p q new rs skip e) refl
]

module _ {ℓ κ} {A : Type ℓ} (P : A → Type κ) where
  pub All-find : (p : A → Bool) (rs : List A) {r : A} → All P rs → find p rs ≡ some r → P r
  unfolding find
  All-find p [] a h = absurd (cc)
  All-find p (x ∷ rs) {r} a h = elim (Bool-cases (p x)) [
    | inl e ↦ (let same : x ≡ r = ground (arith, e) in subst P same a.0)
    | inr e ↦ All-find p rs a.1 (rw e at h)
  ]

  pub All-update :
      (p : A → Bool) (f : A → A) (rs : List A)
      → ((r : A) → p r ≡ true → P r → P (f r))
      → All P rs
      → All P (update p f rs)
  unfolding update
  All-update p f [] keep a = tt
  All-update p f (x ∷ rs) keep a = elim (Bool-cases (p x)) [
    | inl e ↦ rw e (keep x e a.0, a.1)
    | inr e ↦ rw e (a.0, All-update p f rs keep a.1)
  ]

  pub All-select : (p : A → Bool) (rs : List A) → All P rs → All P (select p rs)
  unfolding select
  All-select p [] a = tt
  All-select p (x ∷ rs) a = elim (Bool-cases (p x)) [
    | inl e ↦ rw e (a.0, All-select p rs a.1)
    | inr e ↦ rw e (All-select p rs a.1)
  ]

  All-insert_by :
      (le : A → A → Bool) (a : A) (rs : List A) → P a → All P rs → All P (insert_by le a rs)
  unfolding insert_by
  All-insert_by le a [] pa ps = (pa, tt)
  All-insert_by le a (b ∷ bs) pa ps = elim (Bool-cases (le a b)) [
    | inl e ↦ rw e (pa, ps)
    | inr e ↦ rw e (ps.0, All-insert_by le a bs pa ps.1)
  ]

  pub All-order_by : (le : A → A → Bool) (rs : List A) → All P rs → All P (order_by le rs)
  unfolding order_by
  All-order_by le [] a = tt
  All-order_by le (x ∷ rs) a = All-insert_by le x (order_by le rs) a.0 (All-order_by le rs a.1)

-- The rows that a query returns all satisfy its test.
pub All-select_test {ℓ} :
    {A : Type ℓ} (p : A → Bool) (rs : List A) → All (λ r. p r ≡ true) (select p rs)
unfolding select
All-select_test p [] = tt
All-select_test p (x ∷ rs) = elim (Bool-cases (p x)) [
  | inl e ↦ rw e (e, All-select_test p rs)
  | inr e ↦ rw e (All-select_test p rs)
]

-- A query passes over a row that its test refuses, before and after an assignment.
module _ {ℓ} {A : Type ℓ} (p : A → Bool) where
  pub select-update_skip :
      (q : A → Bool) (new : A) (rs : List A)
      → ((r : A) → q r ≡ true → p r ≡ false)
      → p new ≡ false
      → select p (update q (λ _. new) rs) ≡ select p rs
  unfolding select update
  select-update_skip q new [] skip e = refl
  select-update_skip q new (x ∷ rs) skip e = elim (Bool-cases (q x)) [
    | inl hit ↦ rw (hit, e, skip x hit)
    | inr miss ↦ rw (miss, select-update_skip q new rs skip e)
  ]

  pub select-append_skip :
      (new : A) (rs : List A) → p new ≡ false → select p (rs ++ (new ∷ [])) ≡ select p rs
  unfolding select
  select-append_skip new [] e = rw e
  select-append_skip new (x ∷ rs) e = rw (select-append_skip new rs e)
