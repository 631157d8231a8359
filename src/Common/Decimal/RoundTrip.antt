-- ===== src/Common/Decimal/RoundTrip.antt =====
-- Reading a printed number.
use Prim.Native.Char.{Char, code}
use Prim.Native.String.{String, ◌++◌ as str_append}
use text.Mathlib.TextLemmas.{nil-append, cons-append, append_assoc, append-nil}
use llm_inference_control_pl.Common.{
  ℕ, zero, suc, ◌+◌, ◌-◌, ◌*◌, ◌/◌, ◌%◌, ◌^◌, ◌≤◌, ◌<◌, ◌≡◌, refl, some, arith, subst, ◌∙◌, lt→ltb,
  le→ltb, pos, inl, inr, ◌⊎◌, ap, List, [], ◌∷◌, get_elem?, length,
}
use llm_inference_control_pl.Common.Text.{Lacks}
use llm_inference_control_pl.Common.Decimal.{
  digits, digit, last_digit, print_digits, format_int, max_u64, parse_uint, atoi, above_zero,
}

-- The table holds the characters of the digits from `d` on.
abbrev Spells : ℕ → List Char → Type 0
Spells d [] = Unit {0}
Spells d (c ∷ cs) = (code c ≡ b'0' + d) × Spells (suc d) cs

digits-Spells : Spells 0 digits
digits-Spells = (refl, (refl, (refl, (refl, (refl, (refl, (refl, (refl, (refl, (refl, tt))))))))))

get_elem?-Spells :
    (d i : ℕ) (cs : List Char)
    → Spells d cs
    → i < length cs
    → (c : Char) × (get_elem? cs i ≡ some c) × (code c ≡ b'0' + (d + i))
get_elem?-Spells d i [] h lt = absurd (omega arith)
get_elem?-Spells d zero (c ∷ cs) h lt = (c, refl, omega (arith, h.0))
get_elem?-Spells d (suc i) (c ∷ cs) h lt =
    let (e, found, spells) = get_elem?-Spells (suc d) i cs h.1 (omega arith) in
    (e, found, omega (arith, spells))

-- The printed digit of a number below 10 is one character.
last_digit_char :
    (d : ℕ) → d < 10 → (c : Char) × (last_digit d ≡ String.◌∷◌ c "") × (code c ≡ b'0' + d)
last_digit_char d h =
    let (c, found, spells) = get_elem?-Spells 0 d digits digits-Spells h in
    (c, ap digit found, omega (arith, spells))

parse_uint-digit :
    (c : Char) (d n : ℕ) (t : String)
    → code c ≡ b'0' + d
    → d < 10
    → n * 10 + d ≤ max_u64
    → parse_uint (String.◌∷◌ c t) n ≡ parse_uint t (n * 10 + d)
unfolding parse_uint
parse_uint-digit c d n t spells h fits =
    let value : n * 10 + (code c - b'0') ≡ n * 10 + d = omega (arith, spells) in
    ground (arith, spells, value)

-- One more digit is read as it was printed.
parse_uint-last_digit :
    (d n : ℕ) (t : String)
    → d < 10
    → n * 10 + d ≤ max_u64
    → parse_uint (str_append (last_digit d) t) n ≡ parse_uint t (n * 10 + d)
parse_uint-last_digit d n t h fits =
    let (c, e, spells) = last_digit_char d h in
    rw (e, cons-append c "" t, nil-append t) (parse_uint-digit c d n t spells h fits)

print_digits-small : (left n : ℕ) → n < 10 → print_digits (suc left) n ≡ last_digit (n % 10)
unfolding print_digits
print_digits-small left n h = rw (lt→ltb n 10 h) refl

print_digits-large :
    (left n : ℕ)
    → 10 ≤ n
    → print_digits (suc left) n ≡ str_append (print_digits left (n / 10)) (last_digit (n % 10))
unfolding print_digits
print_digits-large left n h = rw (le→ltb n 10 h) refl

le_or_lt : (a b : ℕ) → (a ≤ b) ⊎ (b < a)
le_or_lt a b = omega arith

parse_uint-small :
    (left n : ℕ) (t : String)
    → n < 10
    → parse_uint (str_append (print_digits (suc left) n) t) 0 ≡ parse_uint t n
parse_uint-small left n t lt =
    rw
      (print_digits-small left n lt, parse_uint-last_digit (n % 10) 0 t (omega arith) (omega arith))
      (ap (parse_uint t) (omega arith))

-- Reading the digits of `n` in front of a text goes on with the text, behind `n`.
parse_uint-print_digits :
    (left n : ℕ) (t : String)
    → n < 10 ^ suc left
    → n ≤ max_u64
    → parse_uint (str_append (print_digits (suc left) n) t) 0 ≡ parse_uint t n
parse_uint-print_digits zero n t h fits = parse_uint-small zero n t (omega (arith, h))
parse_uint-print_digits (suc left) n t h fits = elim (le_or_lt 10 n) [
  | inr lt ↦ parse_uint-small (suc left) n t lt
  | inl le ↦
      rw
        (
          print_digits-large (suc left) n le,
          append_assoc (print_digits (suc left) (n / 10)) (last_digit (n % 10)) t,
          parse_uint-print_digits left (n / 10) (str_append (last_digit (n % 10)) t)
              (omega (arith, h)) (omega arith),
          parse_uint-last_digit (n % 10) (n / 10) t (omega arith) (omega arith),
        )
        (ap (parse_uint t) (omega arith))
]

-- No character of the text is below the digits.
abbrev IsUnsigned : String → Type 0
IsUnsigned String.[] = Unit {0}
IsUnsigned (String.◌∷◌ c s) = (b'0' ≤ code c) × IsUnsigned s

append-IsUnsigned : (s t : String) → IsUnsigned s → IsUnsigned t → IsUnsigned (str_append s t)
append-IsUnsigned String.[] t h k = rw (nil-append t) k
append-IsUnsigned (String.◌∷◌ c s) t h k = rw (cons-append c s t) (h.0, append-IsUnsigned s t h.1 k)

last_digit-IsUnsigned : (n : ℕ) → IsUnsigned (last_digit (n % 10))
last_digit-IsUnsigned n =
    let (c, e, spells) = last_digit_char (n % 10) (omega arith) in rw e (omega (arith, spells), tt)

print_digits-IsUnsigned : (left n : ℕ) → IsUnsigned (print_digits left n)
print_digits-IsUnsigned zero n = unfold print_digits in tt
print_digits-IsUnsigned (suc left) n = elim (le_or_lt 10 n) [
  | inr lt ↦ rw (print_digits-small left n lt) (last_digit-IsUnsigned n)
  | inl le ↦ rw (print_digits-large left n le) (
      append-IsUnsigned (print_digits left (n / 10)) (last_digit (n % 10))
        (print_digits-IsUnsigned left (n / 10)) (last_digit-IsUnsigned n))
]

IsUnsigned-Lacks : (sep : Char) (s : String) → code sep < b'0' → IsUnsigned s → Lacks sep s
IsUnsigned-Lacks sep String.[] below h = tt
IsUnsigned-Lacks sep (String.◌∷◌ c s) below h =
    (ground (arith, h.0), IsUnsigned-Lacks sep s below h.1)

-- A printed number has no separator such as a comma.
pub format_int-Lacks : (sep : Char) (n : ℕ) → code sep < b'0' → Lacks sep (format_int n)
unfolding format_int
format_int-Lacks sep n below =
    IsUnsigned-Lacks sep (print_digits 19 n) below (print_digits-IsUnsigned 19 n)

atoi_unsigned : (s : String) → IsUnsigned s → atoi s ≡ above_zero (parse_uint s 0)
unfolding atoi parse_uint
atoi_unsigned String.[] h = refl
atoi_unsigned (String.◌∷◌ c s) h = ground (arith, h.0)

pub atoi-format_int : (n : ℕ) → n < 2 ^ 63 → atoi (format_int n) ≡ pos n
unfolding format_int
atoi-format_int n h =
    let below : n < 10 ^ 19 = omega (arith, h) in
    let fits : n ≤ max_u64 = omega (arith, h) in
    let read : parse_uint (print_digits 19 n) 0 ≡ some n =
      subst (λ (s : String). parse_uint s 0 ≡ some n) (append-nil _)
        (parse_uint-print_digits 18 n "" below fits ∙ unfold parse_uint in refl) in
    rw (atoi_unsigned _ (print_digits-IsUnsigned 19 n), read) (ground arith)
