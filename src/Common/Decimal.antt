-- ===== src/Common/Decimal.antt =====
-- strconv.FormatInt in base 10, of a number that is not negative, and strconv.Atoi with its error
-- dropped: what is no number counts as 0, and what is out of the range of int64 as the nearest bound.
pub mod RoundTrip
use Prim.Native.Char.{Char, code}
use Prim.Native.String.{String, ◌++◌ as str_append}
use llm_inference_control_pl.Common.{
  ℕ, zero, suc, ◌+◌, ◌-◌, ◌*◌, ◌/◌, ◌%◌, ◌^◌, Bool, List, [], ◌∷◌, Option, none, some, get_elem?,
  ltb, leb, ◌==◌, ◌&&◌, if◌then◌else◌, ℤ, pos, negsuc,
}

-- The table of the digits.
abbrev pub digits : List Char
digits = "0" ∷ "1" ∷ "2" ∷ "3" ∷ "4" ∷ "5" ∷ "6" ∷ "7" ∷ "8" ∷ "9" ∷ []

abbrev pub digit : Option Char → String
digit none = ""
digit (some c) = String.◌∷◌ c ""

-- The digit of a number below 10.
abbrev pub last_digit : ℕ → String
last_digit d = digit (get_elem? digits d)

unfoldable pub print_digits : ℕ → ℕ → String
print_digits zero n = ""
print_digits (suc left) n =
    let before = print_digits left (n / 10) in
    let last = last_digit (n % 10) in if ltb n 10 then last else str_append before last

-- An int64 has at most 19 digits.
unfoldable pub format_int : ℕ → String
unfolding print_digits
format_int n = print_digits 19 n

abbrev pub max_u64 : ℕ
max_u64 = 2 ^ 64 - 1

abbrev pub is_digit : ℕ → Bool
is_digit c = leb b'0' c && leb c b'9'

-- The loop of ParseUint behind the digits of `n`: none is a syntax error, and a value above uint64
-- ends it with the largest one.
unfoldable pub parse_uint : String → ℕ → Option ℕ
parse_uint String.[] n = some n
parse_uint (String.◌∷◌ c s) n =
    let value = n * 10 + (code c - b'0') in
    let rest = parse_uint s value in
    if is_digit (code c) then (if ltb max_u64 value then some max_u64 else rest) else none

-- The text behind the sign; ParseUint refuses an empty one.
abbrev pub magnitude : String → Option ℕ
magnitude String.[] = none
magnitude (String.◌∷◌ c s) = parse_uint (String.◌∷◌ c s) 0

abbrev pub above_zero : Option ℕ → ℤ
above_zero none = pos 0
above_zero (some n) = if leb (2 ^ 63) n then pos (2 ^ 63 - 1) else pos n

abbrev below_zero : Option ℕ → ℤ
below_zero none = pos 0
below_zero (some zero) = pos 0
below_zero (some (suc n)) = if ltb (2 ^ 63) (suc n) then negsuc (2 ^ 63 - 1) else negsuc n

abbrev signed : ℕ → String → ℤ
signed c rest =
    let negative = below_zero (magnitude rest) in
    let positive = above_zero (magnitude rest) in if c == b'-' then negative else positive

-- strconv.Atoi
unfoldable pub atoi : String → ℤ
atoi String.[] = pos 0
atoi (String.◌∷◌ c s) =
    let unsigned = above_zero (magnitude (String.◌∷◌ c s)) in
    let after_sign = signed (code c) s in
    if code c == b'-' then after_sign else if code c == b'+' then after_sign else unsigned
