-- ===== src/Slo/Monotone.antt =====
-- What the estimates of tracker.go and estimator.go depend on.
use llm_inference_control_pl.Common.{
  ℕ, zero, suc, ◌≤◌, ◌<◌, ◌≡◌, true, String, str_eq, lookup, lookup-insert, ℤ, pos, negsuc, arith,
  if◌then◌else◌,
}
use llm_inference_control_pl.Common.Float.{float_lt}
use llm_inference_control_pl.Slo.{
  FloatOps, FloatLaws, LatencyTracker, smoothed, record_latency, average, new_estimator, estimate,
  wait_of, two_63,
}

new_estimator_pos : (n : ℤ) → 0 < (new_estimator n).concurrency
unfolding new_estimator
new_estimator_pos (pos zero) = omega arith
new_estimator_pos (pos (suc n)) = omega arith
new_estimator_pos (negsuc n) = omega arith

module _ (f : FloatOps) (laws : FloatLaws f) (t : LatencyTracker) where
  -- Under the laws of the float64 operations, the estimated wait does not fall when more requests
  -- are ahead or the average latency is greater, as long as the greater wait fits into an int64.
  pub estimate_mono :
      (n : ℤ) (model other : String) (ahead ahead' : ℕ)
      → ahead ≤ ahead'
      → average model t ≤ average other t
      → float_lt (wait_of f (new_estimator n).concurrency ahead' (average other t)) two_63 ≡ true
      → estimate f t (new_estimator n) model ahead ≤ estimate f t (new_estimator n) other ahead'
  unfolding estimate
  estimate_mono n model other ahead ahead' h k fits =
      let c = (new_estimator n).concurrency in
      let pos_c = new_estimator_pos n in
      let a = laws.finite_of_int ahead in
      let a' = laws.finite_of_int ahead' in
      let r = laws.finite_div (f.of_int ahead) c a pos_c in
      let r' = laws.finite_div (f.of_int ahead') c a' pos_c in
      laws.truncate_mono _ _ (laws.amount_mul _ _ r) (laws.amount_mul _ _ r')
        (laws.mul_mono _ _ (average model t) (average other t) r r'
          (laws.div_mono _ _ c a a' pos_c (laws.of_int_mono ahead ahead' h)) k)
        fits

module _ (f : FloatOps) (t : LatencyTracker) (model : String) (d : ℕ) where
  -- Record sets the average of its model, to the sample at first and to the smoothed value later,
  -- and leaves the averages of other models alone.
  pub average-record_latency :
      (other : String)
      → average other (record_latency f model d t)
        ≡ (if str_eq model other then smoothed f d (lookup model t.avg) else average other t)
  unfolding average record_latency
  average-record_latency other =
      ground (arith, lookup-insert model other (smoothed f d (lookup model t.avg)) t.avg)
