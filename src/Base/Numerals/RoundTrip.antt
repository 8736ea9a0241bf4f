-- ===== src/Base/Numerals/RoundTrip.antt =====
-- Base/Numerals: what `str` writes of a number or an identifier is read back.
use wanderra_os.Base.Tests.{◌==◌, if◌then◌else◌}
use wanderra_os.Base.Lists.{length, All, All-append, All-mono, length-append}
use wanderra_os.Base.Text.{
  Text, codes, is_space, strip, strip_by, remove, remove_absent, remove-append, strip_by_none,
  strip_none,
}
use wanderra_os.Base.Json.{hex_digits, decimal, str_uuid}
use wanderra_os.Base.Numerals.{
  read_digits, read_unsigned, read_signed, parse_int, is_brace, parse_uuid,
}
use wanderra_os.Base.Numerals.Digits.{
  is_hex, read_digits-group, hex_digits-split, hex_digits-is_hex, length-hex_digits, decimal-read,
  decimal-is_hex,
}
use Prim.Native.Nat.{ℕ, ◌/◌, ◌<◌}
use mathlib.Core.Path.{◌≡◌, refl, sym, ap, ◌∙◌}
use mathlib.Core.Bool.{Bool, true, false, ◌&&◌, ◌||◌}
use mathlib.Core.Option.{none, some}
use mathlib.Core.List.{[], ◌∷◌, ◌++◌, append_assoc, append-nil}
use native.Mathlib.Omega.{arith}

read_unsigned-digits :
    (base : ℕ) (s : Text)
    → All (λ c. is_hex c ≡ true) s
    → read_unsigned base s ≡ read_digits base 0 false s
unfolding read_unsigned
read_unsigned-digits base [] h = refl
read_unsigned-digits base (a ∷ []) h = refl
read_unsigned-digits base (a ∷ b ∷ s) h =
    let hex = h.1.0 in
    let plain : (base == 16) && (a == 48) && ((b == 120) || (b == 88)) ≡ false =
      ground (arith, hex) in
    rw plain refl

hex-no_space : (c : ℕ) → is_hex c ≡ true → is_space c ≡ false
hex-no_space c h = ground (arith, h)

-- A text of digits is read as its digits are.
parse_int-digits :
    (base : ℕ) (s : Text)
    → All (λ c. is_hex c ≡ true) s
    → parse_int base s ≡ read_digits base 0 false s
unfolding parse_int read_signed read_digits strip
parse_int-digits base [] h = refl
parse_int-digits base (c ∷ s) h =
    let hex = h.0 in
    let plus : (c == 43) ≡ false = ground (arith, hex) in
    let minus : (c == 45) ≡ false = ground (arith, hex) in
    ap (read_signed base)
      (strip_none (c ∷ s) (All-mono (λ c. is_hex c ≡ true) _ (c ∷ s) hex-no_space h))
    ∙ rw (plus, minus) (read_unsigned-digits base (c ∷ s) h)

-- `int(str(n))` is `n`.
pub parse_int-decimal : (n : ℕ) → parse_int 10 (decimal n) ≡ some n
parse_int-decimal n = parse_int-digits 10 (decimal n) (decimal-is_hex n) ∙ decimal-read n false

-- A character of a printed identifier.
abbrev is_plain : ℕ → Bool
is_plain c = is_hex c || (c == 45)

plain-hex : (w n : ℕ) → All (λ c. is_plain c ≡ true) (hex_digits w n)
plain-hex w n =
    All-mono (λ c. is_hex c ≡ true) _ (hex_digits w n) (λ c h. ground (arith, h))
      (hex_digits-is_hex w n)

-- The five groups of a printed identifier.
abbrev grouped : ℕ → ℕ → ℕ → ℕ → ℕ → Text
grouped a b c d e =
    hex_digits 8 a
    ++ (45 ∷ hex_digits 4 b
        ++ (45 ∷ hex_digits 4 c ++ (45 ∷ hex_digits 4 d ++ (45 ∷ hex_digits 12 e))))

abbrev joined : ℕ → ℕ → ℕ → ℕ → ℕ → Text
joined a b c d e =
    hex_digits 8 a ++ (hex_digits 4 b ++ (hex_digits 4 c ++ (hex_digits 4 d ++ hex_digits 12 e)))

module _ (a b c d e : ℕ) where
  grouped-plain : All (λ x. is_plain x ≡ true) (grouped a b c d e)
  grouped-plain = All-append _ (hex_digits 8 a) _ (plain-hex 8 a) (
    refl,
    All-append _ (hex_digits 4 b) _ (plain-hex 4 b) (
      refl,
      All-append _ (hex_digits 4 c) _ (plain-hex 4 c)
          (refl, All-append _ (hex_digits 4 d) _ (plain-hex 4 d) (refl, plain-hex 12 e)),
    ),
  )

  without :
      (p : ℕ → Bool)
      → ((x : ℕ) → is_plain x ≡ true → p x ≡ false)
      → All (λ x. p x ≡ false) (grouped a b c d e)
  without p h = All-mono (λ x. is_plain x ≡ true) _ (grouped a b c d e) h grouped-plain

  no_dash : (w n : ℕ) → All (λ x. 45 == x ≡ false) (hex_digits w n)
  no_dash w n =
      All-mono (λ x. is_hex x ≡ true) _ (hex_digits w n) (λ x h. ground (arith, h))
        (hex_digits-is_hex w n)

  undash :
      (w n : ℕ) (s t : Text)
      → remove (codes "-") s ≡ t
      → remove (codes "-") (hex_digits w n ++ (45 ∷ s)) ≡ hex_digits w n ++ t
  unfolding remove
  undash w n s t h =
      remove-append 45 (hex_digits w n) (45 ∷ s) (no_dash w n) ∙ ap (λ u. hex_digits w n ++ u) h

  undashed : remove (codes "-") (grouped a b c d e) ≡ joined a b c d e
  undashed = undash 8 a _ _ (
      undash 4 b _ _
        (undash 4 c _ _ (undash 4 d _ _ (remove_absent 45 [] (hex_digits 12 e) (no_dash 12 e)))))

  joined-is_hex : All (λ x. is_hex x ≡ true) (joined a b c d e)
  joined-is_hex = All-append _ (hex_digits 8 a) _ (hex_digits-is_hex 8 a) (
      All-append _ (hex_digits 4 b) _ (hex_digits-is_hex 4 b) (
        All-append _ (hex_digits 4 c) _ (hex_digits-is_hex 4 c)
          (All-append _ (hex_digits 4 d) _ (hex_digits-is_hex 4 d) (hex_digits-is_hex 12 e))))

  length-joined : length (joined a b c d e) == 32 ≡ true
  length-joined =
      let l1 =
        length-append (hex_digits 8 a)
          (hex_digits 4 b ++ (hex_digits 4 c ++ (hex_digits 4 d ++ hex_digits 12 e))) in
      let l2 =
        length-append (hex_digits 4 b) (hex_digits 4 c ++ (hex_digits 4 d ++ hex_digits 12 e)) in
      let l3 = length-append (hex_digits 4 c) (hex_digits 4 d ++ hex_digits 12 e) in
      let l4 = length-append (hex_digits 4 d) (hex_digits 12 e) in
      let n1 = length-hex_digits 8 a in
      let n2 = length-hex_digits 4 b in
      let n3 = length-hex_digits 4 c in
      let n4 = length-hex_digits 4 d in
      let n5 = length-hex_digits 12 e in ground (arith, l1, l2, l3, l4, n1, n2, n3, n4, n5)

  twelve :
      hex_digits 12 e
      ≡ hex_digits 4 (e / 65536 / 65536) ++ (hex_digits 4 (e / 65536) ++ (hex_digits 4 e ++ []))
  twelve =
      hex_digits-split 8 e
      ∙ ap (λ x. x ++ hex_digits 4 e) (hex_digits-split 4 (e / 65536))
      ∙ append_assoc (hex_digits 4 (e / 65536 / 65536)) (hex_digits 4 (e / 65536)) (hex_digits 4 e)
      ∙ ap (λ x. hex_digits 4 (e / 65536 / 65536) ++ (hex_digits 4 (e / 65536) ++ x))
          (sym (append-nil (hex_digits 4 e)))

  joined-read :
      0 ≡ a / 65536 / 65536
      → a ≡ b / 65536
      → b ≡ c / 65536
      → c ≡ d / 65536
      → d ≡ e / 65536 / 65536 / 65536
      → read_digits 16 0 false (joined a b c d e) ≡ some e
  unfolding read_digits
  joined-read ha hb hc hd he =
      let rest = hex_digits 4 b ++ (hex_digits 4 c ++ (hex_digits 4 d ++ hex_digits 12 e)) in
      ap (read_digits 16 0 false) (
        ap (λ x. x ++ rest) (hex_digits-split 4 a)
        ∙ append_assoc (hex_digits 4 (a / 65536)) (hex_digits 4 a) rest)
      ∙ read_digits-group 0 (a / 65536) false (hex_digits 4 a ++ rest) ha
      ∙ read_digits-group (a / 65536) a true rest refl
      ∙ read_digits-group a b true _ hb
      ∙ read_digits-group b c true _ hc
      ∙ read_digits-group c d true (hex_digits 12 e) hd
      ∙ ap (read_digits 16 d true) twelve
      ∙ read_digits-group d (e / 65536 / 65536) true _ he
      ∙ read_digits-group (e / 65536 / 65536) (e / 65536) true _ refl
      ∙ read_digits-group (e / 65536) e true [] refl

  grouped-parse :
      0 ≡ a / 65536 / 65536
      → a ≡ b / 65536
      → b ≡ c / 65536
      → c ≡ d / 65536
      → d ≡ e / 65536 / 65536 / 65536
      → parse_uuid (grouped a b c d e) ≡ some e
  unfolding parse_uuid
  grouped-parse ha hb hc hd he =
      let urn =
        remove_absent 117 (codes "rn:") (grouped a b c d e)
          (without (λ x. 117 == x) (λ x h. ground (arith, h))) in
      let uuid =
        remove_absent 117 (codes "uid:") (grouped a b c d e)
          (without (λ x. 117 == x) (λ x h. ground (arith, h))) in
      let braces =
        strip_by_none is_brace (grouped a b c d e) (without is_brace (λ x h. ground (arith, h))) in
      let hex : remove (codes "-")
            (strip_by is_brace (remove (codes "uuid:") (remove (codes "urn:") (grouped a b c d e))))
          ≡ joined a b c d e =
        ap (λ x. remove (codes "-") (strip_by is_brace (remove (codes "uuid:") x))) urn
        ∙ ap (λ x. remove (codes "-") (strip_by is_brace x)) uuid
        ∙ ap (remove (codes "-")) braces
        ∙ undashed in
      ap (λ x. if length x == 32 then parse_int 16 x else none) hex
      ∙ rw length-joined
          (parse_int-digits 16 (joined a b c d e) joined-is_hex ∙ joined-read ha hb hc hd he)

-- `uuid.UUID(str(id))` is `id`, for an identifier of 128 bits.
pub parse_uuid-str_uuid :
    (n : ℕ) → n < 340282366920938463463374607431768211456 → parse_uuid (str_uuid n) ≡ some n
unfolding str_uuid
parse_uuid-str_uuid n small =
    grouped-parse (n / 79228162514264337593543950336) (n / 281474976710656 / 65536 / 65536)
      (n / 281474976710656 / 65536) (n / 281474976710656) n (omega (arith, small)) (omega arith)
      refl refl (omega arith)
