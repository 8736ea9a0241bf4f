-- ===== src/Jobs/Claims.antt =====
-- What `claim_candidate` of app/jobs/repository.py guarantees of the job that it chooses.
use wanderra_os.Base.{
  ◌<◌, ◌≡◌, sym, subst, refl, Bool, Bool-cases, true, false, Option, none, some, List, [], ◌∷◌, All,
  All-both, arith, Option-cases, inl, inr,
}
use wanderra_os.Base.Table.{
  find, find-test, select, order_by, insert_by, All-select, All-select_test, All-order_by,
}
use wanderra_os.Jobs.Contracts.{Instant}
use wanderra_os.Jobs.Models.{JobDefinition, JobInstance, Store, Context}
use wanderra_os.Jobs.Claimable.{
  Serves, HasRoom, IsClaimable, Precedes, claim_order-Precedes, All-unselect, joins→Serves,
  within→HasRoom, claimable→IsClaimable, IsClaimable→claimable,
}
use wanderra_os.Jobs.Repository.{
  first, is_claimable, joins, joined, within_limits, claim_order, claim_head, claim_candidate,
  workspace_paused, running_count,
}

All-first {ℓ κ} :
    {A : Type ℓ} (P : A → Type κ) (rs : List A) {r : A} → All P rs → first rs ≡ some r → P r
All-first P [] a e = absurd (cc)
All-first P (x ∷ rs) {r} a e = (let same : x ≡ r = cc in subst P same a.0)

All-true {ℓ} : {A : Type ℓ} (rs : List A) → All (λ _. Unit {0}) rs
All-true [] = tt
All-true (r ∷ rs) = (tt, All-true rs)

-- No row of the list stands before the head, where the order is strict.
module _ {ℓ} {A : Type ℓ} (before : A → A → Bool)
    (asymmetric : (a b : A) → before a b ≡ true → before b a ≡ false)
    (transitive : (a b c : A) → before a b ≡ true → before b c ≡ true → before a c ≡ true) where
  abbrev IsHead : A → List A → Type 0
  IsHead h rs = All (λ x. before x h ≡ false) rs

  IsHead-before : (a b : A) (rs : List A) → before a b ≡ true → IsHead b rs → IsHead a rs
  IsHead-before a b [] ab h = tt
  IsHead-before a b (x ∷ rs) ab h = (
    elim (Bool-cases (before x a)) [
      | inl xa ↦ absurd (ground (arith, h.0, transitive x a b xa ab))
      | inr not_before ↦ not_before
    ],
    IsHead-before a b rs ab h.1,
  )

  insert_by-IsHead :
      (a b : A) (bs : List A) → before a b ≡ false → IsHead b bs → IsHead b (insert_by before a bs)
  unfolding insert_by
  insert_by-IsHead a b [] ab h = (ab, tt)
  insert_by-IsHead a b (x ∷ bs) ab h = elim (Bool-cases (before a x)) [
    | inl e ↦ rw e (ab, h)
    | inr e ↦ rw e (h.0, insert_by-IsHead a b bs ab h.1)
  ]

  first-irreflexive : (a : A) → before a a ≡ false
  first-irreflexive a = elim (Bool-cases (before a a)) [ inl e ↦ asymmetric a a e | inr e ↦ e ]

  insert_by-first :
      (a : A) (bs : List A) {r : A}
      → ((h : A) → first bs ≡ some h → IsHead h bs)
      → first (insert_by before a bs) ≡ some r
      → IsHead r (insert_by before a bs)
  unfolding insert_by
  insert_by-first a [] {r} h e =
      let same : a ≡ r = cc in subst (λ x. IsHead x (a ∷ [])) same (first-irreflexive a, tt)
  insert_by-first a (b ∷ bs) {r} h e = elim (Bool-cases (before a b)) [
    | inl ab ↦
        let head : some a ≡ some r = rw ab at e in
        let same : a ≡ r = cc in
        subst (λ x. IsHead x (insert_by before a (b ∷ bs))) same
          (rw ab (first-irreflexive a, (asymmetric a b ab, IsHead-before a b bs ab (h b refl).1)))
    | inr ba ↦
        let head : some b ≡ some r = rw ba at e in
        let same : b ≡ r = cc in
        subst (λ x. IsHead x (insert_by before a (b ∷ bs))) same
          (rw ba (first-irreflexive b, insert_by-IsHead a b bs ba (h b refl).1))
  ]

  insert_by-All {κ} :
      (P : A → Type κ) (a : A) (bs : List A) → All P (insert_by before a bs) → P a × All P bs
  unfolding insert_by
  insert_by-All P a [] h = h
  insert_by-All P a (b ∷ bs) h = elim (Bool-cases (before a b)) [
    | inl e ↦ rw e at h
    | inr e ↦
        let (pb, rest) = rw e at h in let (pa, pbs) = insert_by-All P a bs rest in (pa, (pb, pbs))
  ]

  order_by-All {κ} : (P : A → Type κ) (rs : List A) → All P (order_by before rs) → All P rs
  unfolding order_by
  order_by-All P [] h = tt
  order_by-All P (a ∷ rs) h =
      let (pa, rest) = insert_by-All P a (order_by before rs) h in (pa, order_by-All P rs rest)

  order_by-first :
      (rs : List A) (r : A) → first (order_by before rs) ≡ some r → IsHead r (order_by before rs)
  unfolding order_by
  order_by-first [] r e = absurd (cc)
  order_by-first (a ∷ rs) r e = insert_by-first a (order_by before rs) (order_by-first rs) e

claim_order-asymmetric : (a b : JobInstance) → claim_order a b ≡ true → claim_order b a ≡ false
claim_order-asymmetric a b h = ground arith

claim_order-transitive :
    (a b c : JobInstance) → claim_order a b ≡ true → claim_order b c ≡ true → claim_order a c ≡ true
claim_order-transitive a b c h k = ground arith

module _ (context : Context) (now : Instant) (t : Store) where
  -- The head of the ordered query satisfies its conditions, and what holds of every row.
  pub claim_head-claimable {κ} :
      (P : JobInstance → Type κ) {r : JobInstance}
      → All P t.jobs
      → claim_head context now t ≡ some r
      → P r × (is_claimable context now t r ≡ true)
  unfolding claim_head
  claim_head-claimable P a e =
      let claimable = is_claimable context now t in
      All-first (λ x. P x × (claimable x ≡ true)) (order_by claim_order (select claimable t.jobs))
        (All-order_by (λ x. P x × (claimable x ≡ true)) claim_order (select claimable t.jobs)
          (All-both P (λ x. claimable x ≡ true) (select claimable t.jobs)
            (All-select P claimable t.jobs a) (All-select_test claimable t.jobs)))
        e

  joined-within :
      (r : JobInstance) (o : Option JobDefinition) {x : JobInstance} {d : JobDefinition}
      → joined context now t r o ≡ some (x, d)
      → (x ≡ r) × (o ≡ some d) × (within_limits context now t r d ≡ true)
  unfolding joined
  joined-within r none e = absurd (cc)
  joined-within r (some d) e = ground arith

  pub claim_candidate-inv :
      {r : JobInstance} {d : JobDefinition}
      → claim_candidate context now t ≡ some (r, d)
      → (claim_head context now t ≡ some r)
        × (find (joins context t r) t.definitions ≡ some d)
        × (workspace_paused context t ≡ false)
        × (running_count context t < 20)
        × (within_limits context now t r d ≡ true)
  unfolding claim_candidate
  claim_candidate-inv {r} {d} e = elim (Option-cases (claim_head context now t)) [
    | inl nothing ↦ absurd (ground arith)
    | inr (x, head) ↦
        let (same, found, room) =
          joined-within x (find (joins context t x) t.definitions) {x = r} {d = d} (ground arith) in
        (
          ground arith,
          subst (λ y. find (joins context t y) t.definitions ≡ some d) (sym same) found,
          ground arith,
          ground arith,
          subst (λ y. within_limits context now t y d ≡ true) (sym same) room,
        )
  ]

  -- What `claim_candidate` guarantees of the pair that it returns.
  pub record Chosen (r : JobInstance) (d : JobDefinition) : Type 0 where
    pub claimable : IsClaimable context now t r
    pub ahead : All (λ x. IsClaimable context now t x → Precedes r x) t.jobs
    pub serves : Serves context t r d
    pub has_room : HasRoom context now t d
    pub unpaused : workspace_paused context t ≡ false
    pub few : running_count context t < 20

  ahead-All :
      (r : JobInstance) (rs : List JobInstance)
      → All (λ x. is_claimable context now t x ≡ true → claim_order x r ≡ false) rs
      → All (λ x. IsClaimable context now t x → Precedes r x) rs
  ahead-All r [] a = tt
  ahead-All r (x ∷ rs) a = (
    λ h. claim_order-Precedes r x (a.0 (IsClaimable→claimable context now t x h)),
    ahead-All r rs a.1,
  )

  -- A candidate is a job of the workspace that is queued or waits for a retry, is available and
  -- before its deadline, and not held by another transaction; every other such job of the table
  -- comes behind it by availability, then by creation, then by identifier. Its definition is the
  -- one that its row names, active and not paused, runs fewer jobs than its `max_concurrency` and
  -- began fewer attempts in the last minute than its rate limit; the workspace is not paused and
  -- runs fewer than 20 jobs.
  pub claim_candidate-first :
      {r : JobInstance} {d : JobDefinition}
      → claim_candidate context now t ≡ some (r, d)
      → Chosen r d
  unfolding order_by claim_head
  claim_candidate-first {r} {d} e =
      let (head, found, unpaused, few, limits) = claim_candidate-inv e in
      let rows = select (is_claimable context now t) t.jobs in
      record {
        claimable =
            claimable→IsClaimable context now t r
              (claim_head-claimable (λ _. Unit {0}) (All-true t.jobs) head).1;
        ahead = ahead-All r t.jobs (
            All-unselect (λ x. claim_order x r ≡ false) (is_claimable context now t) t.jobs
              (order_by-All claim_order claim_order-asymmetric claim_order-transitive
                (λ x. claim_order x r ≡ false) rows
                (order_by-first claim_order claim_order-asymmetric claim_order-transitive rows r
                  head)));
        serves = joins→Serves context now t r d (find-test (joins context t r) t.definitions found);
        has_room = within→HasRoom context now t r d limits;
        unpaused = unpaused;
        few = few;
      }
