-- ===== src/Slo.antt =====
-- request-plane/slo: tracker.go and estimator.go. Durations are nanoseconds. The float64 arithmetic
-- is a parameter, with the laws that IEEE 754 gives it.
pub mod Monotone
pub mod Examples
use llm_inference_control_pl.Common.{
  ℕ, ◌≤◌, ◌<◌, ◌≡◌, Bool, true, false, Option, none, some, String, Assoc, lookup, insert, ℤ,
  at_least_one, [],
}
use llm_inference_control_pl.Common.Float.{Float64, float_lt, is_nan}

-- float64(n), x * y, x + y, x / y and the conversion of a float64 to an integer
pub record FloatOps : Type 0 where
  pub of_int : ℕ → Float64
  pub mul : Float64 → Float64 → Float64
  pub add : Float64 → Float64 → Float64
  pub div : Float64 → Float64 → Float64
  pub truncate : Float64 → ℕ

abbrev pub infinity : Float64
infinity = 0x7ff0_0000_0000_0000

-- 2^63, the first amount that does not fit into an int64
abbrev pub two_63 : Float64
two_63 = 0x43e0_0000_0000_0000

-- A number, not negative; it may be infinite.
pub record IsAmount (x : Float64) : Type 0 where
  pub number : is_nan x ≡ false
  pub not_negative : float_lt x 0 ≡ false

-- A finite amount.
pub record IsFinite (x : Float64) : Type 0 where
  pub amount : IsAmount x
  pub below : float_lt x infinity ≡ true

abbrev pub ◌≤f◌ : Float64 → Float64 → Type 0
◌≤f◌ x y = float_lt y x ≡ false

-- What IEEE 754 says of amounts: an integer is finite, and so is a finite amount divided by a positive
-- integer; a finite amount times an integer is an amount; conversions and rounded operations keep
-- the order. Converting to an integer keeps the order of amounts that fit.
pub record FloatLaws (f : FloatOps) : Type 0 where
  pub finite_of_int : (n : ℕ) → IsFinite (f.of_int n)
  pub finite_div : (x : Float64) (n : ℕ) → IsFinite x → 0 < n → IsFinite (f.div x (f.of_int n))
  pub amount_mul : (x : Float64) (n : ℕ) → IsFinite x → IsAmount (f.mul x (f.of_int n))
  pub of_int_mono : (m n : ℕ) → m ≤ n → ◌≤f◌ (f.of_int m) (f.of_int n)
  pub div_mono :
      (x y : Float64) (n : ℕ)
      → IsFinite x
      → IsFinite y
      → 0 < n
      → ◌≤f◌ x y
      → ◌≤f◌ (f.div x (f.of_int n)) (f.div y (f.of_int n))
  pub mul_mono :
      (x y : Float64) (m n : ℕ)
      → IsFinite x
      → IsFinite y
      → ◌≤f◌ x y
      → m ≤ n
      → ◌≤f◌ (f.mul x (f.of_int m)) (f.mul y (f.of_int n))
  pub truncate_mono :
      (x y : Float64)
      → IsAmount x
      → IsAmount y
      → ◌≤f◌ x y
      → float_lt y two_63 ≡ true
      → f.truncate x ≤ f.truncate y

-- alpha = 0.3 and the constant 1 - alpha = 0.7
abbrev pub alpha : Float64
alpha = 0x3fd3_3333_3333_3333

abbrev pub one_minus_alpha : Float64
one_minus_alpha = 0x3fe6_6666_6666_6666

pub record LatencyTracker : Type 0 where
  pub avg : Assoc ℕ
  pub fallback : ℕ

-- NewLatencyTracker
unfoldable pub new_latency_tracker : ℕ → LatencyTracker
new_latency_tracker fallback = record { avg = []; fallback = fallback }

abbrev pub smoothed : FloatOps → ℕ → Option ℕ → ℕ
smoothed f d none = d
smoothed f d (some cur) =
    f.truncate (f.add (f.mul (f.of_int cur) one_minus_alpha) (f.mul (f.of_int d) alpha))

-- LatencyTracker.Record
unfoldable pub record_latency : FloatOps → String → ℕ → LatencyTracker → LatencyTracker
record_latency f model d t = record t {
  avg = insert model (smoothed f d (lookup model t.avg)) t.avg;
}

abbrev pub or_fallback : ℕ → Option ℕ → ℕ
or_fallback fallback none = fallback
or_fallback fallback (some d) = d

-- LatencyTracker.Average
unfoldable pub average : String → LatencyTracker → ℕ
average model t = or_fallback t.fallback (lookup model t.avg)

-- The tracker is shared with the gateway, so the estimator's methods take it.
pub record Estimator : Type 0 where
  pub concurrency : ℕ

-- NewEstimator
unfoldable pub new_estimator : ℤ → Estimator
new_estimator concurrency = record { concurrency = at_least_one concurrency }

-- (float64(aheadCount) / float64(concurrency)) * float64(avg)
abbrev pub wait_of : FloatOps → ℕ → ℕ → ℕ → Float64
wait_of f concurrency ahead_count avg =
    f.mul (f.div (f.of_int ahead_count) (f.of_int concurrency)) (f.of_int avg)

-- Estimate
unfoldable pub estimate : FloatOps → LatencyTracker → Estimator → String → ℕ → ℕ
estimate f t e model ahead_count =
    f.truncate (wait_of f e.concurrency ahead_count (average model t))
