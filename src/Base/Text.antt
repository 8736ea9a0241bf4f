-- ===== src/Base/Text.antt =====
-- Python strings as lists of code points: `==`, `str.strip`, and the substring test `in`.
use Prim.Native.Nat.{ℕ, zero, suc, ◌-◌}
use Prim.Native.Char.{code}
use Prim.Native.String.{String}
use mathlib.Core.Path.{◌≡◌, refl, sym, ap, subst, ◌∙◌}
use mathlib.Core.Bool.{Bool, true, false, ◌&&◌, ◌||◌}
use mathlib.Core.List.{List, [], ◌∷◌, ◌++◌, reverse, reverse-cons, reverse-reverse}
use native.Mathlib.Omega.{arith}
use wanderra_os.Base.Lists.{length, All, All-append}
use wanderra_os.Base.Tests.{if◌then◌else◌, ◌==◌, leb}

abbrev pub Text : Type 0
Text = List ℕ

-- The code points of a literal.
abbrev pub codes : String → Text
codes String.[] = []
codes (String.◌∷◌ c s) = code c ∷ codes s

unfoldable pub text_eq : Text → Text → Bool
text_eq [] [] = true
text_eq (a ∷ s) (b ∷ t) = (a == b) && text_eq s t
text_eq _ _ = false

pub text_eq_refl : (s : Text) → text_eq s s ≡ true
unfolding text_eq
text_eq_refl [] = refl
text_eq_refl (a ∷ s) = ground (arith, text_eq_refl s)

pub text_eq-eq : (s t : Text) → text_eq s t ≡ true → s ≡ t
unfolding text_eq
text_eq-eq [] [] h = refl
text_eq-eq (a ∷ s) (b ∷ t) h = ground (arith, text_eq-eq s t)
text_eq-eq [] (b ∷ t) h = cc
text_eq-eq (a ∷ s) [] h = cc

-- `str.isspace` of one code point.
abbrev pub is_space : ℕ → Bool
is_space c =
    (leb 9 c && leb c 13)
    || (leb 28 c && leb c 32)
    || (c == 133)
    || (c == 160)
    || (c == 5760)
    || (leb 8192 c && leb c 8202)
    || (c == 8232)
    || (c == 8233)
    || (c == 8239)
    || (c == 8287)
    || (c == 12288)

unfoldable pub lstrip_by : (ℕ → Bool) → Text → Text
lstrip_by p [] = []
lstrip_by p (c ∷ s) = if p c then lstrip_by p s else c ∷ s

-- `str.strip` of the characters of a set.
unfoldable pub strip_by : (ℕ → Bool) → Text → Text
unfolding lstrip_by
strip_by p s = reverse (lstrip_by p (reverse (lstrip_by p s)))

-- `str.strip()`
unfoldable pub strip : Text → Text
unfolding strip_by
strip s = strip_by is_space s

unfoldable pub starts_with : Text → Text → Bool
starts_with [] t = true
starts_with (a ∷ s) [] = false
starts_with (a ∷ s) (b ∷ t) = (a == b) && starts_with s t

-- `term in text`
unfoldable pub contains : Text → Text → Bool
unfolding starts_with
contains term [] = starts_with term []
contains term (c ∷ s) = starts_with term (c ∷ s) || contains term s

-- `text.replace(term, "")`; the count is of the characters of an occurrence that are still to be
-- passed over.
remove_from : Text → ℕ → Text → Text
unfolding starts_with
remove_from term skip [] = []
remove_from term (suc k) (c ∷ s) = remove_from term k s
remove_from term zero (c ∷ s) =
    let found = starts_with term (c ∷ s) in
    let rest = remove_from term (if found then length term - 1 else zero) s in
    if found then rest else c ∷ rest

unfoldable pub remove : Text → Text → Text
unfolding remove_from
remove term s = remove_from term zero s

-- A text is as it was where nothing of it is taken away.
pub remove_absent : (a : ℕ) (term s : Text) → All (λ c. a == c ≡ false) s → remove (a ∷ term) s ≡ s
unfolding remove remove_from starts_with
remove_absent a term [] h = refl
remove_absent a term (c ∷ s) h =
    let away = h.0 in rw away (ap (λ t. c ∷ t) (remove_absent a term s h.1))

pub remove-append :
    (a : ℕ) (s t : Text)
    → All (λ c. a == c ≡ false) s
    → remove (a ∷ []) (s ++ t) ≡ s ++ remove (a ∷ []) t
unfolding remove remove_from starts_with
remove-append a [] t h = refl
remove-append a (c ∷ s) t h = let away = h.0 in rw away (ap (λ u. c ∷ u) (remove-append a s t h.1))

All-reverse : (P : ℕ → Type 0) (s : Text) → All P s → All P (reverse s)
All-reverse P [] h = tt
All-reverse P (c ∷ s) h =
    subst (All P) (sym (reverse-cons c s))
      (All-append P (reverse s) (c ∷ []) (All-reverse P s h.1) (h.0, tt))

lstrip_by_none : (p : ℕ → Bool) (s : Text) → All (λ c. p c ≡ false) s → lstrip_by p s ≡ s
unfolding lstrip_by
lstrip_by_none p [] h = refl
lstrip_by_none p (c ∷ s) h = rw h.0 refl

pub strip_by_none : (p : ℕ → Bool) (s : Text) → All (λ c. p c ≡ false) s → strip_by p s ≡ s
unfolding strip_by
strip_by_none p s h =
    ap (λ t. reverse (lstrip_by p (reverse t))) (lstrip_by_none p s h)
    ∙ ap reverse (lstrip_by_none p (reverse s) (All-reverse (λ c. p c ≡ false) s h))
    ∙ reverse-reverse s

pub strip_none : (s : Text) → All (λ c. is_space c ≡ false) s → strip s ≡ s
unfolding strip
strip_none s h = strip_by_none is_space s h
