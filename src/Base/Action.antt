-- ===== src/Base/Action.antt =====
-- A method that reads and writes the rows of a session and may raise. What was written before a
-- raise stays in the session: the transaction belongs to the caller.
use mathlib.Core.Path.{◌≡◌, refl, sym, ap}
use mathlib.Core.Logic.{◌⊎◌, inl, inr}
use mathlib.Core.Bool.{Bool, true, false}
use mathlib.Core.Option.{Option, none, some}
use wanderra_os.Base.Result.{Result, ok, err}

abbrev pub Action : Type 0 → Type 0 → Type 0 → Type 0
Action S E A = S → Result E A × S

module _ {S E : Type 0} where
  unfoldable pub pure : {A : Type 0} → A → Action S E A
  pure a s = (ok a, s)

  unfoldable pub raise : {A : Type 0} → E → Action S E A
  raise e s = (err e, s)

  unfoldable pub raise_if : Bool → E → Action S E (Unit {0})
  raise_if true e s = (err e, s)
  raise_if false e s = (ok tt, s)

  unfoldable pub gets : {A : Type 0} → (S → A) → Action S E A
  gets f s = (ok (f s), s)

  unfoldable pub modify : (S → S) → Action S E (Unit {0})
  modify f s = (ok tt, f s)

  unfoldable pub lift : {A : Type 0} → Result E A → Action S E A
  lift r s = (r, s)

  unfoldable pub some_or : {A : Type 0} → Option A → E → Action S E A
  some_or none e s = (err e, s)
  some_or (some a) e s = (ok a, s)

  abbrev pub continue : {A B : Type 0} → (A → Action S E B) → Result E A → S → Result E B × S
  continue f (ok a) s = f a s
  continue f (err e) s = (err e, s)

  infixl 5 ◌>>=◌ ◌>>◌
  -- To unfold this is to unfold the other actions too.
  unfoldable pub ◌>>=◌ : {A B : Type 0} → Action S E A → (A → Action S E B) → Action S E B
  unfolding pure raise raise_if gets modify lift some_or
  ◌>>=◌ m f s = let (r, s') = m s in continue f r s'

  abbrev pub ◌>>◌ : {B : Type 0} → Action S E (Unit {0}) → Action S E B → Action S E B
  m >> k = m >>= λ _. k

-- How a method runs: a raise ends it, a value goes on to the rest, and a method that returned has
-- passed each step.
module _ {S E : Type 0} where
  pub bind-err :
      {A B : Type 0} (m : Action S E A) (f : A → Action S E B) {s t : S} {e : E}
      → m s ≡ (err e, t)
      → (m >>= f) s ≡ (err e, t)
  unfolding ◌>>=◌
  bind-err m f h = ap (λ x. continue f x.0 x.1) h

  pub bind-ok :
      {A B : Type 0} (m : Action S E A) (f : A → Action S E B) {s t : S} {a : A}
      → m s ≡ (ok a, t)
      → (m >>= f) s ≡ f a t
  unfolding ◌>>=◌
  bind-ok m f h = ap (λ x. continue f x.0 x.1) h

  pub bind-inv :
      {A B : Type 0} (m : Action S E A) (f : A → Action S E B) (s : S) {b : B} {u : S}
      → (m >>= f) s ≡ (ok b, u)
      → (a : A) × (t : S) × (m s ≡ (ok a, t)) × (f a t ≡ (ok b, u))
  unfolding ◌>>=◌
  bind-inv {A} {B} m f s {b} {u} h = go (m s).0 (m s).1 refl h
    where
      go :
          (r : Result E A) (t : S)
          → m s ≡ (r, t)
          → continue f r t ≡ (ok b, u)
          → (a : A) × (t : S) × (m s ≡ (ok a, t)) × (f a t ≡ (ok b, u))
      go (ok a) t e q = (a, t, e, q)
      go (err e) t e' q = absurd (cc)

  pub guard-inv :
      {B : Type 0} (b : Bool) (e : E) (m : Action S E B) (s : S) {x : B} {t : S}
      → (raise_if b e >> m) s ≡ (ok x, t)
      → (b ≡ false) × (m s ≡ (ok x, t))
  unfolding ◌>>=◌
  guard-inv true e m s h = absurd (cc)
  guard-inv false e m s h = (refl, h)

  pub lift-inv :
      {A B : Type 0} (r : Result E A) (f : A → Action S E B) (s : S) {x : B} {t : S}
      → (lift r >>= f) s ≡ (ok x, t)
      → (a : A) × (r ≡ ok a) × (f a s ≡ (ok x, t))
  unfolding ◌>>=◌
  lift-inv (ok a) f s h = (a, refl, h)
  lift-inv (err e) f s h = absurd (cc)

  pub some-inv :
      {A B : Type 0} (o : Option A) (e : E) (f : A → Action S E B) (s : S) {x : B} {t : S}
      → (some_or o e >>= f) s ≡ (ok x, t)
      → (a : A) × (o ≡ some a) × (f a s ≡ (ok x, t))
  unfolding ◌>>=◌
  some-inv none e f s h = absurd (cc)
  some-inv (some a) e f s h = (a, refl, h)

  -- A guard that raises leaves the session as it was.
  pub guard-raised :
      {B : Type 0} (b : Bool) (e : E) (m : Action S E B) (s : S) {x : E} {t : S}
      → (raise_if b e >> m) s ≡ (err x, t)
      → (t ≡ s) ⊎ (m s ≡ (err x, t))
  unfolding ◌>>=◌
  guard-raised true e m s h = inl (sym (ap (λ r. r.1) h))
  guard-raised false e m s h = inr h

  pub some-raised :
      {A B : Type 0} (o : Option A) (e : E) (f : A → Action S E B) (s : S) {x : E} {t : S}
      → (some_or o e >>= f) s ≡ (err x, t)
      → (t ≡ s) ⊎ ((a : A) × (o ≡ some a) × (f a s ≡ (err x, t)))
  unfolding ◌>>=◌
  some-raised none e f s h = inl (sym (ap (λ r. r.1) h))
  some-raised (some a) e f s h = inr (a, refl, h)

  pub guard-pass :
      {B : Type 0} (b : Bool) (e : E) (m : Action S E B) (s : S)
      → b ≡ false
      → (raise_if b e >> m) s ≡ m s
  unfolding ◌>>=◌
  guard-pass true e m s h = absurd (cc)
  guard-pass false e m s h = refl

  pub some-pass :
      {A B : Type 0} (o : Option A) (e : E) (f : A → Action S E B) (s : S) {a : A}
      → o ≡ some a
      → (some_or o e >>= f) s ≡ f a s
  unfolding ◌>>=◌
  some-pass none e f s h = absurd (cc)
  some-pass (some x) e f s {a} h = (let same : x ≡ a = cc in ap (λ y. f y s) same)

  pub lift-pass :
      {A B : Type 0} (r : Result E A) (f : A → Action S E B) (s : S) {a : A}
      → r ≡ ok a
      → (lift r >>= f) s ≡ f a s
  unfolding ◌>>=◌
  lift-pass r f s h = ap (λ x. continue f x s) h

  pub gets-pass :
      {A B : Type 0} (f : S → A) (k : A → Action S E B) (s : S) → (gets f >>= k) s ≡ k (f s) s
  unfolding ◌>>=◌
  gets-pass f k s = refl

  pub gets-inv :
      {A : Type 0} (f : S → A) (s : S) {a : A} {t : S}
      → gets {E = E} f s ≡ (ok a, t)
      → (f s ≡ a) × (s ≡ t)
  unfolding gets
  gets-inv f s h = (cc, cc)

  pub modify-pass :
      {B : Type 0} (f : S → S) (m : Action S E B) (s : S) → (modify f >> m) s ≡ m (f s)
  unfolding ◌>>=◌
  modify-pass f m s = refl

  pub pure-inv :
      {A : Type 0} (a : A) (s : S) {x : A} {t : S}
      → pure {S = S} {E = E} a s ≡ (ok x, t)
      → (a ≡ x) × (s ≡ t)
  unfolding pure
  pure-inv a s h = (cc, cc)
