-- ===== src/Slo/Examples.antt =====
-- Concrete estimates of estimator.go, over a small arithmetic that has the laws of the float64 one.
use native.Mathlib.Nat.{le_trans, le-div_iff_mul-le, div-mul-le_self, mul-le-mul}
use llm_inference_control_pl.Common.{
  ℕ, ◌≡◌, ◌≤◌, ◌<◌, ◌*◌, ◌/◌, ◌^◌, ◌+◌, refl, [], ◌∷◌, arith, lookup, pos, ltb, min, if◌then◌else◌,
}
use llm_inference_control_pl.Common.Float.{Float64, float_lt, is_nan}
use llm_inference_control_pl.Slo.{
  FloatOps, IsAmount, IsFinite, FloatLaws, LatencyTracker, new_estimator, estimate, average, ◌≤f◌,
}

-- The amounts 0 to 1000 in units of the least positive float64; negative values count as 0.
abbrev clip : Float64 → ℕ
clip x = if ltb x (2 ^ 63) then min x 1000 else 0

abbrev pub small_floats : FloatOps
small_floats = record {
  of_int = λ n. min n 1000;
  mul = λ x y. min (clip x * clip y) 1000;
  add = λ x y. min (clip x + clip y) 1000;
  div = λ x y. min (clip x / clip y) 1000;
  truncate = λ x. clip x;
}

small_order : (m n : ℕ) → m ≤ n → n ≤ 1000 → ◌≤f◌ m n
unfolding float_lt
small_order m n h k = ground arith

small-IsFinite : (n : ℕ) → n ≤ 1000 → IsFinite n
unfolding float_lt is_nan
small-IsFinite n h = record {
  amount = record { number = ground arith; not_negative = ground arith };
  below = ground arith;
}

clip_mono : (x y : Float64) → IsAmount x → IsAmount y → ◌≤f◌ x y → clip x ≤ clip y
unfolding float_lt is_nan
clip_mono x y a b h = ground (arith, a.number, a.not_negative, b.number, b.not_negative)

div_le : (x y k : ℕ) → 0 < k → x ≤ y → x / k ≤ y / k
div_le x y k pos_k h = (le-div_iff_mul-le pos_k).1 (le_trans (div-mul-le_self x k) h)

pub small_laws : FloatLaws small_floats
small_laws = record {
  finite_of_int = λ n. small-IsFinite (min n 1000) (omega arith);
  finite_div = λ x n f p. small-IsFinite (min (clip x / clip (min n 1000)) 1000) (omega arith);
  amount_mul =
      λ x n f. (small-IsFinite (min (clip x * clip (min n 1000)) 1000) (omega arith)).amount;
  of_int_mono = λ m n h. small_order (min m 1000) (min n 1000) (omega arith) (omega arith);
  div_mono = λ x y n f g p h.
      let le =
        div_le (clip x) (clip y) (clip (min n 1000)) (ground arith)
          (clip_mono x y f.amount g.amount h) in
      small_order (min (clip x / clip (min n 1000)) 1000) (min (clip y / clip (min n 1000)) 1000)
        (omega arith) (omega arith);
  mul_mono = λ x y m n f g h k.
      let le : clip x * clip (min m 1000) ≤ clip y * clip (min n 1000) =
        mul-le-mul (clip_mono x y f.amount g.amount h) (ground arith) in
      small_order (min (clip x * clip (min m 1000)) 1000) (min (clip y * clip (min n 1000)) 1000)
        (omega arith) (omega arith);
  truncate_mono = λ x y a b h fits. clip_mono x y a b h;
}

-- "slow" takes 40, and other models 20.
abbrev tracker : LatencyTracker
tracker = record { avg = ("slow", 40) ∷ []; fallback = 20 }

estimates :
    (estimate small_floats tracker (new_estimator (pos 2)) "m" 4 ≡ 40)
    × (estimate small_floats tracker (new_estimator (pos 2)) "slow" 6 ≡ 120)
unfolding average lookup new_estimator estimate
estimates = (refl, refl)
