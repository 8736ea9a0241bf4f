-- ===== src/Base/Json.antt =====
-- Python's `json.dumps(value, sort_keys=True, separators=(",", ":"))`, and `str` of a UUID.
use Prim.Native.Nat.{ℕ, zero, suc, ◌+◌, ◌-◌, ◌/◌, ◌%◌}
use mathlib.Core.Bool.{Bool, true, false, ◌||◌, ◌&&◌}
use mathlib.Core.Option.{Option, none, some}
use mathlib.Core.List.{[], ◌∷◌, ◌++◌}
use wanderra_os.Base.Tests.{if◌then◌else◌, ◌==◌, ltb, leb}
use wanderra_os.Base.Text.{Text, codes}

-- The values that a payload holds. `integer negative n`, and `float` by its `repr`; `opaque` is
-- an object that the encoder refuses with `TypeError`.
mutual
  pub data Json : Type 0 where
    null : Json
    boolean : Bool → Json
    integer : Bool → ℕ → Json
    float : Text → Json
    string : Text → Json
    array : Items → Json
    object : Fields → Json
    opaque : Json

  pub data Items : Type 0 where
    nil : Items
    cons : Json → Items → Items

  pub data Fields : Type 0 where
    end : Fields
    field : Text → Json → Fields → Fields

unfoldable pub digit : ℕ → ℕ
digit n = if ltb n 10 then 48 + n else 87 + n

unfoldable pub hex_digits : ℕ → ℕ → Text
unfolding digit
hex_digits zero n = []
hex_digits (suc w) n = hex_digits w (n / 16) ++ (digit (n % 16) ∷ [])

-- Decimal digits; the fuel is the number itself plus one, which is more than its digits.
unfoldable pub decimal_digits : ℕ → ℕ → Text
unfolding digit
decimal_digits zero n = []
decimal_digits (suc f) n =
    let rest = decimal_digits f (n / 10) in (if ltb n 10 then [] else rest) ++ (digit (n % 10) ∷ [])

unfoldable pub decimal : ℕ → Text
unfolding decimal_digits
decimal n = decimal_digits (suc n) n

-- `str(uuid)`: 32 hexadecimal digits in groups of 8, 4, 4, 4 and 12.
unfoldable pub str_uuid : ℕ → Text
unfolding hex_digits
str_uuid n =
    hex_digits 8 (n / 79228162514264337593543950336)
    ++ (45 ∷ hex_digits 4 (n / 281474976710656 / 65536 / 65536)
        ++ (45 ∷ hex_digits 4 (n / 281474976710656 / 65536)
            ++ (45 ∷ hex_digits 4 (n / 281474976710656) ++ (45 ∷ hex_digits 12 n))))

unicode_escape : ℕ → Text
unfolding hex_digits
unicode_escape c = 92 ∷ 117 ∷ hex_digits 4 c

-- `ensure_ascii`: what is not printable ASCII is escaped, above the first plane by a pair.
escape_char : ℕ → Text
unfolding unicode_escape
escape_char c =
    if c == 34
    then 92 ∷ 34 ∷ []
    else if c == 92
    then 92 ∷ 92 ∷ []
    else if c == 10
    then 92 ∷ 110 ∷ []
    else if c == 13
    then 92 ∷ 114 ∷ []
    else if c == 9
    then 92 ∷ 116 ∷ []
    else if c == 12
    then 92 ∷ 102 ∷ []
    else if c == 8
    then 92 ∷ 98 ∷ []
    else if leb 32 c && leb c 126
    then c ∷ []
    else if ltb c 65536
    then unicode_escape c
    else unicode_escape (55296 + (c - 65536) / 1024) ++ unicode_escape (56320 + (c - 65536) % 1024)

escape : Text → Text
unfolding escape_char
escape [] = []
escape (c ∷ s) = escape_char c ++ escape s

quote_string : Text → Text
unfolding escape
quote_string s = 34 ∷ (escape s ++ (34 ∷ []))

-- Python's order on strings, by code points.
text_leb : Text → Text → Bool
text_leb [] t = true
text_leb (a ∷ s) [] = false
text_leb (a ∷ s) (b ∷ t) = ltb a b || ((a == b) && text_leb s t)

insert_field : Text → Json → Fields → Fields
unfolding text_leb
insert_field k v end = field k v end
insert_field k v (field j w fs) =
    if text_leb k j then field k v (field j w fs) else field j w (insert_field k v fs)

sort_fields : Fields → Fields
unfolding insert_field
sort_fields end = end
sort_fields (field k v fs) = insert_field k v (sort_fields fs)

-- Two parts that the encoder writes one behind the other.
join : Option Text → Option Text → Option Text
join none _ = none
join (some s) none = none
join (some s) (some t) = some (s ++ t)

separator : Bool → Text
separator true = []
separator false = 44 ∷ []

-- The encoded fields stand sorted by key, so the encoder encodes each value first.
mutual
  unfolding join separator quote_string decimal

  encode : Json → Option Text
  encode null = some (codes "null")
  encode (boolean true) = some (codes "true")
  encode (boolean false) = some (codes "false")
  encode (integer negative n) = some (if negative then 45 ∷ decimal n else decimal n)
  encode (float repr) = some repr
  encode (string s) = some (quote_string s)
  encode (array xs) = join (some (91 ∷ [])) (join (encode_items true xs) (some (93 ∷ [])))
  encode (object fs) = join (some (123 ∷ [])) (join (encode_fields true fs) (some (125 ∷ [])))
  encode opaque = none

  encode_items : Bool → Items → Option Text
  encode_items first nil = some []
  encode_items first (cons x xs) =
      join (some (separator first)) (join (encode x) (encode_items false xs))

  encode_fields : Bool → Fields → Option Text
  encode_fields first end = some []
  encode_fields first (field k v fs) =
      join (some (separator first ++ (quote_string k ++ (58 ∷ []))))
        (join (encode v) (encode_fields false fs))

mutual
  unfolding sort_fields

  sorted : Json → Json
  sorted (array xs) = array (sorted_items xs)
  sorted (object fs) = object (sort_fields (sorted_fields fs))
  sorted j = j

  sorted_items : Items → Items
  sorted_items nil = nil
  sorted_items (cons x xs) = cons (sorted x) (sorted_items xs)

  sorted_fields : Fields → Fields
  sorted_fields end = end
  sorted_fields (field k v fs) = field k (sorted v) (sorted_fields fs)

-- `none` is the `TypeError` of a value that has no encoding.
unfoldable pub dumps : Json → Option Text
unfolding encode encode_items encode_fields sorted sorted_items sorted_fields
dumps j = encode (sorted j)

-- An identifier or `None`.
abbrev pub uuid_or_null : Option ℕ → Json
uuid_or_null none = null
uuid_or_null (some n) = string (str_uuid n)
