-- ===== src/Common/Int.antt =====
-- Go's `int` where a value below 1 or 0 is told apart: configuration values and rate limits.
use Prim.Native.Nat.{ℕ, zero, suc, ◌+◌, ◌-◌}
use mathlib.Core.Bool.{Bool, true, false}
use mathlib.Core.Path.{◌≡◌, refl}
use native.Mathlib.Omega.{arith}
use llm_inference_control_pl.Common.Tests.{ltb, ◌==◌, if◌then◌else◌}

-- `negsuc n` is -(n + 1).
pub data ℤ : Type 0 where
  pos : ℕ → ℤ
  negsuc : ℕ → ℤ

-- `if n < 1 { n = 1 }`
abbrev pub at_least_one : ℤ → ℕ
at_least_one (pos zero) = 1
at_least_one (pos (suc n)) = suc n
at_least_one (negsuc n) = 1

-- `n <= 0`
abbrev pub is_nonpositive : ℤ → Bool
is_nonpositive (pos zero) = true
is_nonpositive (pos (suc n)) = false
is_nonpositive (negsuc n) = true

-- The value of a positive number; 0 for all others.
abbrev pub to_ℕ : ℤ → ℕ
to_ℕ (pos n) = n
to_ℕ (negsuc n) = 0

-- n + 1 and n - 1
abbrev pub increment : ℤ → ℤ
increment (pos n) = pos (suc n)
increment (negsuc zero) = pos 0
increment (negsuc (suc n)) = negsuc n

abbrev pub decrement : ℤ → ℤ
decrement (pos zero) = negsuc 0
decrement (pos (suc n)) = pos n
decrement (negsuc n) = negsuc (suc n)

-- m < n and m == n
abbrev pub int_lt : ℤ → ℤ → Bool
int_lt (pos m) (pos n) = ltb m n
int_lt (pos m) (negsuc n) = false
int_lt (negsuc m) (pos n) = true
int_lt (negsuc m) (negsuc n) = ltb n m

abbrev pub int_eq : ℤ → ℤ → Bool
int_eq (pos m) (pos n) = m == n
int_eq (negsuc m) (negsuc n) = m == n
int_eq _ _ = false

pub decrement-increment : (n : ℤ) → decrement (increment n) ≡ n
decrement-increment (pos n) = refl
decrement-increment (negsuc zero) = refl
decrement-increment (negsuc (suc n)) = refl

pub int_lt_trans : (a b c : ℤ) → int_lt b a ≡ false → int_lt c b ≡ false → int_lt c a ≡ false
int_lt_trans (pos a) (pos b) (pos c) h k = ground arith
int_lt_trans (pos a) (pos b) (negsuc c) h k = cc
int_lt_trans (pos a) (negsuc b) c h k = cc
int_lt_trans (negsuc a) (pos b) (pos c) h k = refl
int_lt_trans (negsuc a) (pos b) (negsuc c) h k = cc
int_lt_trans (negsuc a) (negsuc b) (pos c) h k = refl
int_lt_trans (negsuc a) (negsuc b) (negsuc c) h k = ground arith

pub int_lt-asym : (a b : ℤ) → int_lt a b ≡ true → int_lt b a ≡ false
int_lt-asym (pos a) (pos b) h = ground arith
int_lt-asym (pos a) (negsuc b) h = cc
int_lt-asym (negsuc a) (pos b) h = refl
int_lt-asym (negsuc a) (negsuc b) h = ground arith

pub int_lt_irrefl : (a : ℤ) → int_lt a a ≡ false
int_lt_irrefl (pos a) = ground arith
int_lt_irrefl (negsuc a) = ground arith

pub int_eq_refl : (a : ℤ) → int_eq a a ≡ true
int_eq_refl (pos a) = ground arith
int_eq_refl (negsuc a) = ground arith

pub int_eq-eq : (a b : ℤ) → int_eq a b ≡ true → a ≡ b
int_eq-eq (pos a) (pos b) h = ground arith
int_eq-eq (pos a) (negsuc b) h = cc
int_eq-eq (negsuc a) (pos b) h = cc
int_eq-eq (negsuc a) (negsuc b) h = ground arith

-- m + n
abbrev pub add_int : ℤ → ℤ → ℤ
add_int (pos m) (pos n) = pos (m + n)
add_int (pos m) (negsuc n) = if ltb n m then pos (m - suc n) else negsuc (n - m)
add_int (negsuc m) (pos n) = if ltb m n then pos (n - suc m) else negsuc (m - n)
add_int (negsuc m) (negsuc n) = negsuc (m + n + 1)

pub add_int_assoc : (a b c : ℤ) → add_int (add_int a b) c ≡ add_int a (add_int b c)
add_int_assoc (pos a) (pos b) (pos c) = ground arith
add_int_assoc (pos a) (pos b) (negsuc c) = ground arith
add_int_assoc (pos a) (negsuc b) (pos c) = ground arith
add_int_assoc (pos a) (negsuc b) (negsuc c) = ground arith
add_int_assoc (negsuc a) (pos b) (pos c) = ground arith
add_int_assoc (negsuc a) (pos b) (negsuc c) = ground arith
add_int_assoc (negsuc a) (negsuc b) (pos c) = ground arith
add_int_assoc (negsuc a) (negsuc b) (negsuc c) = ground arith

pub add_int_zero : (a : ℤ) → add_int a (pos 0) ≡ a
add_int_zero (pos a) = ground arith
add_int_zero (negsuc a) = ground arith

pub zero-add_int : (a : ℤ) → add_int (pos 0) a ≡ a
zero-add_int (pos a) = ground arith
zero-add_int (negsuc a) = ground arith
