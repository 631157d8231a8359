-- ===== src/Overview/Metrics.antt =====
-- control-plane/metrics/metrics.go: what Collect sends on a scrape. The values are those before their
-- conversion to float64; the registration with Prometheus is a library's.
use llm_inference_control_pl.Common.{ℕ, ◌≡◌, refl, List, [], ◌∷◌, map, String, Assoc, ℤ}
use llm_inference_control_pl.Common.Float.{Float64}
use llm_inference_control_pl.Registry.{
  WorkerState, starting, ready, busy, draining, dead, unrecognized, WorkerEntry, Registry,
}
use llm_inference_control_pl.Registry.Queries.{list_workers, ModelStat, models_served}
use llm_inference_control_pl.Router.{Router, in_flight_snapshot, get_in_flight, id_of}
use llm_inference_control_pl.Overview.{
  StateCounts, gauges, StatsResp, stats, stats_loop, count_state, add_in_flight, count_all,
  empty_stats,
}

-- The four families of metrics.
pub record Samples : Type 0 where
  pub workers : StateCounts
  pub fleet_cost_per_hour : Float64
  pub in_flight : Assoc ℤ
  pub healthy_workers : List (String × ℕ)

-- The cases of the `switch` that add to fleetCost.
abbrev pub add_cost : (Float64 → Float64 → Float64) → WorkerState → Float64 → Float64 → Float64
add_cost add ready cost total = add total cost
add_cost add busy cost total = add total cost
add_cost add starting cost total = total
add_cost add draining cost total = total
add_cost add dead cost total = total
add_cost add (unrecognized n) cost total = total

unfoldable pub cost_loop : (Float64 → Float64 → Float64) → List WorkerEntry → Float64 → Float64
cost_loop add [] total = total
cost_loop add (e ∷ es) total = cost_loop add es (add_cost add e.state e.info.cost_per_hour total)

abbrev pub model_gauge : ModelStat → String × ℕ
model_gauge s = (s.model, s.healthy_workers)

-- Collect
unfoldable pub collect : (Float64 → Float64 → Float64) → Registry → Router → Samples
collect add r rtr = record {
  workers = gauges r;
  fleet_cost_per_hour = cost_loop add (list_workers r) 0;
  in_flight = in_flight_snapshot rtr;
  healthy_workers = map model_gauge (models_served r);
}

module _ (add : Float64 → Float64 → Float64) where
  counted_cost :
      (cost : Float64) (state : WorkerState) (n : ℤ) (s : StatsResp)
      → (add_in_flight n (count_state add cost state s)).fleet_cost_per_hour
        ≡ add_cost add state cost s.fleet_cost_per_hour
  counted_cost cost ready n s = refl
  counted_cost cost busy n s = refl
  counted_cost cost starting n s = refl
  counted_cost cost draining n s = refl
  counted_cost cost dead n s = refl
  counted_cost cost (unrecognized k) n s = refl

  loop-cost :
      (in_flight : Assoc ℤ) (es : List WorkerEntry) (s : StatsResp)
      → (stats_loop add in_flight es s).fleet_cost_per_hour ≡ cost_loop add es s.fleet_cost_per_hour
  unfolding stats_loop cost_loop
  loop-cost in_flight [] s = refl
  loop-cost in_flight (e ∷ es) s =
      let n = get_in_flight in_flight (id_of e) in
      rw
        (
          loop-cost in_flight es (add_in_flight n (count_state add e.info.cost_per_hour e.state s)),
          counted_cost e.info.cost_per_hour e.state n s,
        )
        refl

  -- The fleet cost of the metrics and of the admin summary are the same float64, if both read the
  -- workers in the same order.
  pub collect-cost :
      (r : Registry) (rtr : Router)
      → (collect add r rtr).fleet_cost_per_hour ≡ (stats add r rtr).fleet_cost_per_hour
  unfolding collect stats
  collect-cost r rtr =
      rw
        (loop-cost (in_flight_snapshot rtr) (list_workers r)
          (empty_stats (count_all (list_workers r))))
        refl
