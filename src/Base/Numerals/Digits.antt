-- ===== src/Base/Numerals/Digits.antt =====
-- Base/Numerals: runs of digits read back.
use wanderra_os.Base.Tests.{◌==◌, ltb, leb, if◌then◌else◌, Bool-cases}
use wanderra_os.Base.Lists.{length, All, All-append, length-append}
use wanderra_os.Base.Text.{Text}
use wanderra_os.Base.Json.{digit, hex_digits, decimal_digits, decimal}
use wanderra_os.Base.Numerals.{digit_value, digit_in, read_digits}
use Prim.Native.Nat.{ℕ, zero, suc, ◌+◌, ◌*◌, ◌/◌, ◌%◌, ◌<◌, ◌≤◌}
use mathlib.Core.Path.{◌≡◌, refl, sym, ap, ◌∙◌}
use mathlib.Core.Logic.{inl, inr}
use mathlib.Core.Bool.{Bool, true, false, ◌&&◌, ◌||◌}
use mathlib.Core.Option.{some}
use mathlib.Core.List.{[], ◌∷◌, ◌++◌, append_assoc, append-nil}
use native.Mathlib.Omega.{arith}

-- A digit as `digit` writes it.
abbrev pub is_hex : ℕ → Bool
is_hex c = (leb 48 c && leb c 57) || (leb 97 c && leb c 102)

digit-is_hex : (v : ℕ) → v < 16 → is_hex (digit v) ≡ true
unfolding digit
digit-is_hex v h = ground arith

digit_value-digit :
    (base v : ℕ) → v < base → base ≤ 16 → digit_in base (digit_value (digit v)) ≡ some v
unfolding digit digit_value
digit_value-digit base v h small = ground arith

digit-plain : (v : ℕ) (ready : Bool) → v < 16 → ready && (digit v == 95) ≡ false
unfolding digit
digit-plain v ready h = ground arith

pub read_digits-digit :
    (base acc v : ℕ) (ready : Bool) (s : Text)
    → v < base
    → base ≤ 16
    → read_digits base acc ready (digit v ∷ s) ≡ read_digits base (acc * base + v) true s
unfolding read_digits
read_digits-digit base acc v ready s h small =
    rw (digit-plain v ready (omega arith), digit_value-digit base v h small) refl

-- Four hexadecimal digits behind those of `q`, which is what stands before them in `m`.
pub read_digits-group :
    (q m : ℕ) (ready : Bool) (s : Text)
    → q ≡ m / 65536
    → read_digits 16 q ready (hex_digits 4 m ++ s) ≡ read_digits 16 m true s
unfolding hex_digits
read_digits-group q m ready s e =
    read_digits-digit 16 q (m / 16 / 16 / 16 % 16) ready _ (omega arith) (omega arith)
    ∙ read_digits-digit 16 _ (m / 16 / 16 % 16) true _ (omega arith) (omega arith)
    ∙ read_digits-digit 16 _ (m / 16 % 16) true _ (omega arith) (omega arith)
    ∙ read_digits-digit 16 _ (m % 16) true s (omega arith) (omega arith)
    ∙ ap (λ x. read_digits 16 x true s) (omega (arith, e))

append_four :
    (xs : Text) (a b c d : ℕ)
    → xs ++ (a ∷ []) ++ (b ∷ []) ++ (c ∷ []) ++ (d ∷ []) ≡ xs ++ (a ∷ b ∷ c ∷ d ∷ [])
append_four [] a b c d = refl
append_four (x ∷ xs) a b c d = ap (λ t. x ∷ t) (append_four xs a b c d)

-- Four digits are the last of more.
pub hex_digits-split :
    (w n : ℕ) → hex_digits (suc (suc (suc (suc w)))) n ≡ hex_digits w (n / 65536) ++ hex_digits 4 n
unfolding hex_digits
hex_digits-split w n =
    let quotient : n / 16 / 16 / 16 / 16 ≡ n / 65536 = omega arith in
    append_four (hex_digits w (n / 16 / 16 / 16 / 16)) (digit (n / 16 / 16 / 16 % 16))
      (digit (n / 16 / 16 % 16)) (digit (n / 16 % 16)) (digit (n % 16))
    ∙ ap (λ q. hex_digits w q ++ hex_digits 4 n) quotient

pub hex_digits-is_hex : (w n : ℕ) → All (λ c. is_hex c ≡ true) (hex_digits w n)
unfolding hex_digits
hex_digits-is_hex zero n = tt
hex_digits-is_hex (suc w) n =
    All-append (λ c. is_hex c ≡ true) (hex_digits w (n / 16)) _ (hex_digits-is_hex w (n / 16))
      (digit-is_hex (n % 16) (omega arith), tt)

pub length-hex_digits : (w n : ℕ) → length (hex_digits w n) ≡ w
unfolding hex_digits
length-hex_digits zero n = refl
length-hex_digits (suc w) n =
    length-append (hex_digits w (n / 16)) _ ∙ omega (arith, length-hex_digits w (n / 16))

-- Decimal digits, with enough fuel to write them all.
decimal_digits-read :
    (fuel n : ℕ) (ready : Bool) (s : Text)
    → n < fuel
    → read_digits 10 0 ready (decimal_digits fuel n ++ s) ≡ read_digits 10 n true s
unfolding decimal_digits
decimal_digits-read zero n ready s h = absurd (omega (arith, h))
decimal_digits-read (suc f) n ready s h = elim (Bool-cases (ltb n 10)) [
  | inl small ↦ rw small (
      read_digits-digit 10 0 (n % 10) ready s (omega arith) (omega arith)
      ∙ ap (λ x. read_digits 10 x true s) (ground (arith, small)))
  | inr large ↦ rw large (
      ap (read_digits 10 0 ready) (append_assoc (decimal_digits f (n / 10)) _ s)
      ∙ decimal_digits-read f (n / 10) ready _ (ground (arith, large, h))
      ∙ read_digits-digit 10 (n / 10) (n % 10) true s (omega arith) (omega arith)
      ∙ ap (λ x. read_digits 10 x true s) (omega arith))
]

decimal_digits-is_hex : (fuel n : ℕ) → All (λ c. is_hex c ≡ true) (decimal_digits fuel n)
unfolding decimal_digits
decimal_digits-is_hex zero n = tt
decimal_digits-is_hex (suc f) n =
    All-append (λ c. is_hex c ≡ true) (if ltb n 10 then [] else decimal_digits f (n / 10)) _
      (before (ltb n 10) (decimal_digits f (n / 10)) (decimal_digits-is_hex f (n / 10)))
      (digit-is_hex (n % 10) (omega arith), tt)
  where
    before :
        (b : Bool) (s : Text)
        → All (λ c. is_hex c ≡ true) s
        → All (λ c. is_hex c ≡ true) (if b then [] else s)
    before true s h = tt
    before false s h = h

pub decimal-read : (n : ℕ) (ready : Bool) → read_digits 10 0 ready (decimal n) ≡ some n
unfolding decimal read_digits
decimal-read n ready =
    ap (read_digits 10 0 ready) (sym (append-nil (decimal_digits (suc n) n)))
    ∙ decimal_digits-read (suc n) n ready [] (omega arith)

pub decimal-is_hex : (n : ℕ) → All (λ c. is_hex c ≡ true) (decimal n)
unfolding decimal
decimal-is_hex n = decimal_digits-is_hex (suc n) n
