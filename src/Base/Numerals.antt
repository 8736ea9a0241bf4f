-- ===== src/Base/Numerals.antt =====
-- Python's `int(text, base)` and `uuid.UUID(text)`. Of the digits there are the ASCII ones, and a
-- negative number reads as nothing, which every caller refuses as it does a text that is no number.
pub mod Digits
pub mod RoundTrip
use wanderra_os.Base.Tests.{◌==◌, ltb, leb, if◌then◌else◌}
use wanderra_os.Base.Lists.{length}
use wanderra_os.Base.Text.{Text, codes, strip, strip_by, remove}
use Prim.Native.Nat.{ℕ, ◌+◌, ◌-◌, ◌*◌}
use mathlib.Core.Bool.{Bool, true, false, ◌&&◌, ◌||◌}
use mathlib.Core.Option.{Option, none, some}
use mathlib.Core.List.{[], ◌∷◌}

-- A digit of any base up to 16.
unfoldable pub digit_value : ℕ → Option ℕ
digit_value c =
    if leb 48 c && leb c 57
    then some (c - 48)
    else if leb 97 c && leb c 102
    then some (c - 87)
    else if leb 65 c && leb c 70
    then some (c - 55)
    else none

abbrev pub digit_in : ℕ → Option ℕ → Option ℕ
digit_in base none = none
digit_in base (some v) = if ltb v base then some v else none

-- The number so far and whether an underscore may follow, behind one more character.
abbrev pub next_digit : ℕ → ℕ → Option ℕ → Option (ℕ × Bool)
next_digit base acc none = none
next_digit base acc (some v) = some (acc * base + v, true)

abbrev pub read_digit : ℕ → ℕ → Bool → ℕ → Option (ℕ × Bool)
read_digit base acc ready c =
    if ready && (c == 95)
    then some (acc, false)
    else next_digit base acc (digit_in base (digit_value c))

abbrev pub continue_digits : Option (ℕ × Bool) → (ℕ → Bool → Option ℕ) → Option ℕ
continue_digits none rest = none
continue_digits (some (acc, ready)) rest = rest acc ready

-- The digits behind those that make `acc`; an underscore may stand where `ready`.
unfoldable pub read_digits : ℕ → ℕ → Bool → Text → Option ℕ
unfolding digit_value
read_digits base acc ready [] = if ready then some acc else none
read_digits base acc ready (c ∷ s) =
    continue_digits (read_digit base acc ready c) (λ acc ready. read_digits base acc ready s)

-- The digits behind a prefix such as `0x`, which an underscore may follow.
abbrev read_prefixed : ℕ → Text → Option ℕ
read_prefixed base [] = none
read_prefixed base (c ∷ s) = read_digits base 0 true (c ∷ s)

unfoldable pub read_unsigned : ℕ → Text → Option ℕ
unfolding read_digits
read_unsigned base (a ∷ b ∷ s) =
    if (base == 16) && (a == 48) && ((b == 120) || (b == 88))
    then read_prefixed base s
    else read_digits base 0 false (a ∷ b ∷ s)
read_unsigned base s = read_digits base 0 false s

abbrev minus_zero : Option ℕ → Option ℕ
minus_zero none = none
minus_zero (some n) = if n == 0 then some 0 else none

unfoldable pub read_signed : ℕ → Text → Option ℕ
unfolding read_unsigned
read_signed base [] = none
read_signed base (c ∷ s) =
    if c == 43
    then read_unsigned base s
    else if c == 45
    then minus_zero (read_unsigned base s)
    else read_unsigned base (c ∷ s)

-- `int(text, base)`
unfoldable pub parse_int : ℕ → Text → Option ℕ
unfolding read_signed
parse_int base s = read_signed base (strip s)

abbrev pub is_brace : ℕ → Bool
is_brace c = (c == 123) || (c == 125)

-- `uuid.UUID(text)`
unfoldable pub parse_uuid : Text → Option ℕ
unfolding parse_int
parse_uuid s =
    let hex =
      remove (codes "-") (strip_by is_brace (remove (codes "uuid:") (remove (codes "urn:") s))) in
    if length hex == 32 then parse_int 16 hex else none
