-- ===== src/Gateway/Estimates.antt =====
-- The estimates that gateway.go gives the three priorities.
use llm_inference_control_pl.Common.{◌≤◌, ◌≡◌, true, String, arith, ℤ}
use llm_inference_control_pl.Common.Float.{float_lt}
use llm_inference_control_pl.Queue.{Queue, high, normal, low, ahead_of}
use llm_inference_control_pl.Queue.Bounds.{ahead_of_by_priority}
use llm_inference_control_pl.Slo.{
  FloatOps, FloatLaws, LatencyTracker, new_estimator, estimate, wait_of, average, two_63,
}
use llm_inference_control_pl.Slo.Monotone.{estimate_mono}

module _ (f : FloatOps) (laws : FloatLaws f) (t : LatencyTracker) (n : ℤ) (model : String) where
  -- Under the laws of the float64 operations, for one queue and model, the estimated wait of a high
  -- request is at most that of a normal one, and that at most that of a low one, as long as the
  -- waits fit into an int64.
  pub estimates_by_priority :
      (q : Queue)
      → float_lt
          (wait_of f (new_estimator n).concurrency (ahead_of q normal) (average model t))
          two_63
        ≡ true
      → float_lt (wait_of f (new_estimator n).concurrency (ahead_of q low) (average model t)) two_63
        ≡ true
      → (estimate f t (new_estimator n) model (ahead_of q high)
          ≤ estimate f t (new_estimator n) model (ahead_of q normal))
        × (estimate f t (new_estimator n) model (ahead_of q normal)
            ≤ estimate f t (new_estimator n) model (ahead_of q low))
  estimates_by_priority q normal_fits low_fits =
      let (first, second, _) = ahead_of_by_priority q in
      (
        estimate_mono f laws t n model model (ahead_of q high) (ahead_of q normal) first
            (omega arith) normal_fits,
        estimate_mono f laws t n model model (ahead_of q normal) (ahead_of q low) second
            (omega arith) low_fits,
      )
