-- ===== src/Cli/Numbers.antt =====
-- strconv.ParseInt with base 0, and strconv.ParseBool: the values of the flags of cmd/main.go.
use goxfer.Base.{
  ℕ, ◌+◌, ◌-◌, ◌*◌, ◌^◌, Bool, true, false, ◌&&◌, ◌||◌, not, List, [], ◌∷◌, Option, none, some,
  Text, codes, text_eq, ℤ, pos, negate, ltb, leb, ◌==◌, if◌then◌else◌,
}

-- A letter in lower case.
abbrev to_lower : ℕ → ℕ
to_lower c = if leb b'A' c && leb c b'Z' then c + 32 else c

abbrev digit_value : ℕ → Option ℕ
digit_value c =
    if leb b'0' c && leb c b'9'
    then some (c - b'0')
    else if leb b'a' (to_lower c) && leb (to_lower c) b'z'
    then some (to_lower c - b'a' + 10)
    else none

abbrev with_digit : ℕ → ℕ → Option ℕ → Option ℕ
with_digit base n none = none
with_digit base n (some d) = if ltb d base then some (n * base + d) else none

-- Underscores are passed over here.
digits : ℕ → Text → Option ℕ → Option ℕ
digits base [] n = n
digits base (c ∷ s) none = none
digits base (c ∷ s) (some n) =
    if c == b'_' then digits base s (some n) else digits base s (with_digit base n (digit_value c))

-- What stood before a character: a digit or the prefix of a base, an underscore, or something else.
pub data Before : Type 0 where
  digit underscore other : Before

is_hex_digit : ℕ → Bool
is_hex_digit c = leb b'a' (to_lower c) && leb (to_lower c) b'f'

-- An underscore stands between digits, or between the prefix and a digit.
underscores_from : Bool → Before → Text → Bool
underscores_from hex digit [] = true
underscores_from hex other [] = true
underscores_from hex underscore [] = false
underscores_from hex before (c ∷ s) =
    if (leb b'0' c && leb c b'9') || (hex && is_hex_digit c)
    then underscores_from hex digit s
    else if c == b'_'
    then elim before [
      | digit ↦ underscores_from hex underscore s
      | underscore ↦ false
      | other ↦ false
    ]
    else elim before [
      | digit ↦ underscores_from hex other s
      | underscore ↦ false
      | other ↦ underscores_from hex other s
    ]

abbrev is_base : ℕ → Bool
is_base c = to_lower c == b'b' || to_lower c == b'o' || to_lower c == b'x'

abbrev underscore_ok : Text → Bool
underscore_ok (z ∷ c ∷ s) =
    if z == b'0' && is_base c
    then underscores_from (to_lower c == b'x') digit s
    else underscores_from false other (z ∷ c ∷ s)
underscore_ok s = underscores_from false other s

abbrev has_underscore : Text → Bool
has_underscore [] = false
has_underscore (c ∷ s) = c == b'_' || has_underscore s

abbrev octal_or_decimal : Text → Option ℕ
octal_or_decimal [] = none
octal_or_decimal (c ∷ s) = if c == b'0' then digits 8 s (some 0) else digits 10 (c ∷ s) (some 0)

abbrev unsigned_value : Text → Option ℕ
unsigned_value (z ∷ c ∷ d ∷ s) =
    if z == b'0' && is_base c
    then digits (if to_lower c == b'b' then 2 else if to_lower c == b'o' then 8 else 16) (d ∷ s)
        (some 0)
    else octal_or_decimal (z ∷ c ∷ d ∷ s)
unsigned_value s = octal_or_decimal s

abbrev parse_unsigned : Text → Option ℕ
parse_unsigned s = if has_underscore s && not (underscore_ok s) then none else unsigned_value s

abbrev as_positive : Option ℕ → Option ℤ
as_positive none = none
as_positive (some n) = if ltb n (2 ^ 63) then some (pos n) else none

abbrev as_negative : Option ℕ → Option ℤ
as_negative none = none
as_negative (some n) = if leb n (2 ^ 63) then some (negate n) else none

unfoldable pub parse_int : Text → Option ℤ
unfolding digits underscores_from is_hex_digit
parse_int [] = none
parse_int (c ∷ s) =
    if c == b'+'
    then as_positive (parse_unsigned s)
    else if c == b'-'
    then as_negative (parse_unsigned s)
    else as_positive (parse_unsigned (c ∷ s))

abbrev one_of : Text → List Text → Bool
one_of t [] = false
one_of t (u ∷ us) = text_eq t u || one_of t us

unfoldable pub parse_bool : Text → Option Bool
parse_bool t =
    if one_of t
      (codes "1" ∷ codes "t" ∷ codes "T" ∷ codes "true" ∷ codes "TRUE" ∷ codes "True" ∷ [])
    then some true
    else if one_of t
        (codes "0" ∷ codes "f" ∷ codes "F" ∷ codes "false" ∷ codes "FALSE" ∷ codes "False" ∷ [])
    then some false
    else none
