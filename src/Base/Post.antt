-- ===== src/Base/Post.antt =====
-- Invariants of a store across a method, with what is known of the value that it returns. A raise
-- keeps the invariant too, since what was written before it stays.
use mathlib.Core.Path.{◌≡◌, refl}
use mathlib.Core.Bool.{Bool, true, false}
use mathlib.Core.Option.{Option, none, some}
use wanderra_os.Base.Result.{Result, ok, err}
use wanderra_os.Base.Action.{
  Action, continue, ◌>>=◌, pure, raise, raise_if, gets, modify, lift, some_or,
}

abbrev pub Returned : {E A : Type 0} → (A → Type 0) → Result E A → Type 0
Returned Q (ok a) = Q a
Returned Q (err e) = Unit

-- The method keeps `I`, and what it returns satisfies `Q`.
pub record Post {S E A : Type 0} (I : S → Type 0) (Q : A → Type 0) (m : Action S E A) : Type 0 where
  pub run : (s : S) → I s → I (m s).1 × Returned Q (m s).0

weaken-run :
    {E A : Type 0} {Q R : A → Type 0}
    → ((a : A) → Q a → R a)
    → (r : Result E A) → Returned Q r
    → Returned R r
weaken-run h (ok a) q = h a q
weaken-run h (err e) q = tt

-- Nothing is known of the value.
abbrev pub Any : {A : Type 0} → A → Type 0
Any a = Unit

pub Any-returned : {E A : Type 0} (r : Result E A) → Returned Any r
Any-returned (ok a) = tt
Any-returned (err e) = tt

module _ {S E : Type 0} {I : S → Type 0} where
  after :
      {A B : Type 0} {R : B → Type 0} {Q : A → Type 0} {f : A → Action S E B}
      → ((a : A) → Q a → Post I R (f a))
      → (r : Result E A) (s : S) → I s
      → Returned Q r
      → I (continue f r s).1 × Returned R (continue f r s).0
  after k (ok a) s i q = (k a q).run s i
  after k (err e) s i q = (i, tt)

  pub bind :
      {A B : Type 0} {R : B → Type 0} {Q : A → Type 0} {m : Action S E A} {f : A → Action S E B}
      → Post I Q m
      → ((a : A) → Q a → Post I R (f a))
      → Post I R (m >>= f)
  unfolding ◌>>=◌
  bind {m} p k = record { run = λ s i. after k (m s).0 (m s).1 (p.run s i).0 (p.run s i).1 }

  pub return : {A : Type 0} {Q : A → Type 0} (a : A) → Q a → Post {E = E} I Q (pure a)
  unfolding pure
  return a q = record { run = λ s i. (i, q) }

  pub raising : {A : Type 0} {Q : A → Type 0} (e : E) → Post {A = A} I Q (raise e)
  unfolding raise
  raising e = record { run = λ s i. (i, tt) }

  -- What comes behind `raise_if` has the test's failure.
  pub guarding : (b : Bool) (e : E) → Post I (λ _. b ≡ false) (raise_if b e)
  unfolding raise_if
  guarding true e = record { run = λ s i. (i, tt) }
  guarding false e = record { run = λ s i. (i, refl) }

  pub reading :
      {A : Type 0} {Q : A → Type 0} (f : S → A)
      → ((s : S) → I s → Q (f s))
      → Post {E = E} I Q (gets f)
  unfolding gets
  reading f h = record { run = λ s i. (i, h s i) }

  pub writing : (f : S → S) → ((s : S) → I s → I (f s)) → Post {E = E} I Any (modify f)
  unfolding modify
  writing f h = record { run = λ s i. (h s i, tt) }

  pub lifting : {A : Type 0} (r : Result E A) → Post I (λ a. r ≡ ok a) (lift r)
  unfolding lift
  lifting (ok a) = record { run = λ s i. (i, refl) }
  lifting (err e) = record { run = λ s i. (i, tt) }

  pub requiring : {A : Type 0} (o : Option A) (e : E) → Post I (λ a. o ≡ some a) (some_or o e)
  unfolding some_or
  requiring none e = record { run = λ s i. (i, tt) }
  requiring (some a) e = record { run = λ s i. (i, refl) }

  -- A stronger fact about the value gives a weaker one.
  pub weaken :
      {A : Type 0} {Q R : A → Type 0} {m : Action S E A}
      → ((a : A) → Q a → R a)
      → Post I Q m
      → Post I R m
  weaken {m} h p = record { run = λ s i. ((p.run s i).0, weaken-run h (m s).0 (p.run s i).1) }
