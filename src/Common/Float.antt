-- ===== src/Common/Float.antt =====
-- Go's `<` and `==` on float64, on the 64-bit patterns of IEEE 754 binary64.
use mathlib.Core.Bool.{Bool, true, false, not, ◌&&◌}
use llm_inference_control_pl.Common.{
  ℕ, ◌+◌, ◌-◌, ◌%◌, ◌^◌, ◌≡◌, refl, arith, ltb, ◌==◌, if◌then◌else◌,
}

-- A value is its bit pattern.
abbrev pub Float64 : Type 0
Float64 = ℕ

-- All bits but the sign.
magnitude : Float64 → ℕ
magnitude x = x % 2 ^ 63

-- The exponent is all ones and the fraction is not 0.
unfoldable pub is_nan : Float64 → Bool
unfolding magnitude
is_nan x = ltb 0x7ff0_0000_0000_0000 (magnitude x)

-- Values that are no NaN, in their numeric order; both zeros have one rank.
rank : Float64 → ℕ
unfolding magnitude
rank x = if ltb x (2 ^ 63) then 2 ^ 63 + magnitude x else 2 ^ 63 - magnitude x

unfoldable pub float_lt : Float64 → Float64 → Bool
unfolding rank is_nan
float_lt x y = not (is_nan x) && not (is_nan y) && ltb (rank x) (rank y)

unfoldable pub float_eq : Float64 → Float64 → Bool
unfolding rank is_nan
float_eq x y = not (is_nan x) && not (is_nan y) && (rank x == rank y)

abbrev pub zero_bits : Float64
zero_bits = 0

-- 1.0 and 2.5
abbrev pub one_bits : Float64
one_bits = 0x3ff0_0000_0000_0000

abbrev pub two_and_half_bits : Float64
two_and_half_bits = 0x4004_0000_0000_0000

abbrev pub nan_bits : Float64
nan_bits = 0x7ff8_0000_0000_0000

-- Comparisons through ranks, with the representation kept shut.
float_lt-rank :
    (x y : Float64) → float_lt x y ≡ (not (is_nan x) && not (is_nan y) && ltb (rank x) (rank y))
unfolding float_lt
float_lt-rank x y = refl

float_eq-rank :
    (x y : Float64) → float_eq x y ≡ (not (is_nan x) && not (is_nan y) && (rank x == rank y))
unfolding float_eq
float_eq-rank x y = refl

module _ (x y : Float64) where
  pub float_eq_self : is_nan x ≡ false → float_eq x x ≡ true
  float_eq_self h = ground (arith, float_eq-rank x x)

  pub float_eq-nan : is_nan y ≡ true → float_eq x y ≡ false
  float_eq-nan h = ground (arith, float_eq-rank x y)

  pub float_lt-nan : is_nan y ≡ true → float_lt x y ≡ false
  float_lt-nan h = ground (arith, float_lt-rank x y)

module _ (x y : Float64) where
  pub float_lt-asym : float_lt x y ≡ true → float_lt y x ≡ false
  float_lt-asym h = ground (arith, float_lt-rank x y, float_lt-rank y x)

pub float_lt_irrefl : (x : Float64) → float_lt x x ≡ false
float_lt_irrefl x = ground (arith, float_lt-rank x x)

module _ (x y z : Float64) where
  -- not less is transitive among numbers
  pub float_ge_trans :
      is_nan y ≡ false
      → float_lt x y ≡ false
      → float_lt y z ≡ false
      → is_nan x ≡ false
      → is_nan z ≡ false
      → float_lt x z ≡ false
  float_ge_trans hy h k hx hz =
      ground (arith, float_lt-rank x y, float_lt-rank y z, float_lt-rank x z)

  pub float_ge-of_eq : float_eq x y ≡ true → float_lt z y ≡ false → float_lt z x ≡ false
  float_ge-of_eq h k = ground (arith, float_eq-rank x y, float_lt-rank z y, float_lt-rank z x)
