-- ===== src/Overview/Agreement.antt =====
-- The figures of the admin API against those of the metrics and of the registry.
use llm_inference_control_pl.Common.{
  ℕ, ◌+◌, ◌≡◌, refl, true, List, [], ◌∷◌, Assoc, ℤ, arith, tally, length, values, All, All-of_Elem,
  ◌∙◌, lookup-of_Elem,
}
use llm_inference_control_pl.Common.Float.{Float64}
use llm_inference_control_pl.Registry.{
  WorkerState, starting, draining, dead, WorkerEntry, Registry, same_state,
}
use llm_inference_control_pl.Registry.Queries.{list_workers, is_healthy, worker_count}
use llm_inference_control_pl.Registry.Catalog.{worker_count-eq}
use llm_inference_control_pl.Registry.Invariant.{Inv, recognized}
use llm_inference_control_pl.Router.{Router, get_in_flight, id_of, in_flight_snapshot}
use llm_inference_control_pl.Overview.{
  StatsResp, stats_loop, stats, count_all, count_state, add_in_flight, StateCounts, gauge_state,
  gauges_loop, gauges, empty_stats, no_gauges,
}

-- How many of the workers are in a state.
abbrev in_state : WorkerState → List WorkerEntry → ℕ
in_state state = tally (λ e. same_state e.state state)

abbrev healthy_in : List WorkerEntry → ℕ
healthy_in = tally (λ e. is_healthy e.state)

module _ (add : Float64 → Float64 → Float64) (in_flight : Assoc ℤ) where
  stats_loop-tally :
      (es : List WorkerEntry) (s : StatsResp)
      → ((stats_loop add in_flight es s).total ≡ s.total)
        × ((stats_loop add in_flight es s).healthy ≡ s.healthy + healthy_in es)
        × ((stats_loop add in_flight es s).starting_count ≡ s.starting_count + in_state starting es)
        × ((stats_loop add in_flight es s).draining_count ≡ s.draining_count + in_state draining es)
        × ((stats_loop add in_flight es s).dead_count ≡ s.dead_count + in_state dead es)
  unfolding stats_loop
  stats_loop-tally [] s = ground arith
  stats_loop-tally (e ∷ es) s = ground (
    arith,
    stats_loop-tally es (
        add_in_flight (get_in_flight in_flight (id_of e))
          (count_state add e.info.cost_per_hour e.state s)),
  )

gauges_loop-tally :
    (es : List WorkerEntry) (c : StateCounts)
    → ((gauges_loop es c).starting_gauge ≡ c.starting_gauge + in_state starting es)
      × ((gauges_loop es c).ready_gauge + (gauges_loop es c).busy_gauge
          ≡ c.ready_gauge + c.busy_gauge + healthy_in es)
      × ((gauges_loop es c).draining_gauge ≡ c.draining_gauge + in_state draining es)
      × ((gauges_loop es c).dead_gauge ≡ c.dead_gauge + in_state dead es)
unfolding gauges_loop
gauges_loop-tally [] c = ground arith
gauges_loop-tally (e ∷ es) c = ground (arith, gauges_loop-tally es (gauge_state e.state c))

-- With named states only, every worker is in one of the counted groups.
named_partition :
    (es : List WorkerEntry)
    → All (λ e. recognized e.state ≡ true) es
    → (count_all es ≡ length es)
      × (length es ≡ healthy_in es + in_state starting es + in_state draining es + in_state dead es)
named_partition [] h = (refl, refl)
named_partition (e ∷ es) h = ground (arith, h.0, named_partition es h.1)

values-named : (r : Registry) → Inv r → All (λ e. recognized e.state ≡ true) (values r.workers)
values-named r v =
    All-of_Elem (λ e. recognized e.state ≡ true) (values r.workers)
      (λ e there.
        let (id, at) = lookup-of_Elem e r.workers v.keys there in (v.entries id e at).named_state)

pair_eq : {a b c d : ℕ} → a ≡ c → b ≡ d → ◌≡◌ {A = ℕ × ℕ} (a, b) (c, d)
pair_eq h k = cc

-- On a well-formed registry the groups of the admin summary add up to its total, and the summary,
-- the metrics and WorkerCount give the same figures.
pub stats-gauges :
    (add : Float64 → Float64 → Float64) (r : Registry) (rtr : Router)
    → Inv r
    → ((stats add r rtr).total
        ≡ (stats add r rtr).healthy
          + (stats add r rtr).starting_count
          + (stats add r rtr).draining_count
          + (stats add r rtr).dead_count)
      × (worker_count r ≡ ((stats add r rtr).total, (stats add r rtr).healthy))
      × ((gauges r).ready_gauge + (gauges r).busy_gauge ≡ (stats add r rtr).healthy)
      × ((gauges r).starting_gauge ≡ (stats add r rtr).starting_count)
      × ((gauges r).draining_gauge ≡ (stats add r rtr).draining_count)
      × ((gauges r).dead_gauge ≡ (stats add r rtr).dead_count)
unfolding stats gauges list_workers
stats-gauges add r rtr v =
    let es = values r.workers in
    let s = stats_loop-tally add (in_flight_snapshot rtr) es (empty_stats (count_all es)) in
    let g = gauges_loop-tally es no_gauges in
    let p = named_partition es (values-named r v) in
    (
      omega (arith, s, p),
      worker_count-eq r ∙ pair_eq (omega (arith, s, p)) (omega (arith, s)),
      omega (arith, s, g),
      omega (arith, s, g),
      omega (arith, s, g),
      omega (arith, s, g),
    )
