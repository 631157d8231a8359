-- ===== src/Overview.antt =====
-- What the control plane reports about its fleet: the handler `stats` of control-plane/api/admin.go and
-- the counts of FleetCollector.Collect of control-plane/metrics/metrics.go. Adding costs is a
-- parameter, the addition of float64.
pub mod Agreement
pub mod Fleet
pub mod Routes
pub mod Loads
pub mod Metrics
mod Examples
use llm_inference_control_pl.Common.{ℕ, ◌+◌, List, [], ◌∷◌, Assoc, ℤ, pos, add_int}
use llm_inference_control_pl.Common.Float.{Float64}
use llm_inference_control_pl.Registry.{
  WorkerState, starting, ready, busy, draining, dead, unrecognized, WorkerEntry, Registry,
}
use llm_inference_control_pl.Registry.Queries.{list_workers}
use llm_inference_control_pl.Router.{Router, in_flight_snapshot, or_none, get_in_flight, id_of}

pub record StatsResp : Type 0 where
  pub total : ℕ
  pub healthy : ℕ
  pub starting_count : ℕ
  pub draining_count : ℕ
  pub dead_count : ℕ
  pub total_in_flight : ℤ
  pub fleet_cost_per_hour : Float64

-- The `switch` of `stats`.
abbrev pub count_state :
    (Float64 → Float64 → Float64) → Float64 → WorkerState → StatsResp → StatsResp
count_state add cost ready s = record s {
  healthy = s.healthy + 1;
  fleet_cost_per_hour = add s.fleet_cost_per_hour cost;
}
count_state add cost busy s = record s {
  healthy = s.healthy + 1;
  fleet_cost_per_hour = add s.fleet_cost_per_hour cost;
}
count_state add cost starting s = record s { starting_count = s.starting_count + 1 }
count_state add cost draining s = record s { draining_count = s.draining_count + 1 }
count_state add cost dead s = record s { dead_count = s.dead_count + 1 }
count_state add cost (unrecognized n) s = s

abbrev pub add_in_flight : ℤ → StatsResp → StatsResp
add_in_flight n s = record s { total_in_flight = add_int s.total_in_flight n }

-- The loop of `stats`.
unfoldable pub stats_loop :
    (Float64 → Float64 → Float64) → Assoc ℤ → List WorkerEntry → StatsResp → StatsResp
stats_loop add in_flight [] s = s
stats_loop add in_flight (e ∷ es) s = stats_loop add in_flight es (
    add_in_flight (get_in_flight in_flight (id_of e))
      (count_state add e.info.cost_per_hour e.state s))

abbrev pub count_all : List WorkerEntry → ℕ
count_all [] = 0
count_all (e ∷ es) = count_all es + 1

-- var s statsResp
abbrev pub empty_stats : (total : ℕ) → StatsResp
empty_stats total = record {
  total = total;
  healthy = 0;
  starting_count = 0;
  draining_count = 0;
  dead_count = 0;
  total_in_flight = pos 0;
  fleet_cost_per_hour = 0;
}

-- stats
unfoldable pub stats : (Float64 → Float64 → Float64) → Registry → Router → StatsResp
stats add r rtr =
    stats_loop add (in_flight_snapshot rtr) (list_workers r)
      (empty_stats (count_all (list_workers r)))

-- llm_workers{state} of Collect
pub record StateCounts : Type 0 where
  pub starting_gauge : ℕ
  pub ready_gauge : ℕ
  pub busy_gauge : ℕ
  pub draining_gauge : ℕ
  pub dead_gauge : ℕ

abbrev pub gauge_state : WorkerState → StateCounts → StateCounts
gauge_state starting c = record c { starting_gauge = c.starting_gauge + 1 }
gauge_state ready c = record c { ready_gauge = c.ready_gauge + 1 }
gauge_state busy c = record c { busy_gauge = c.busy_gauge + 1 }
gauge_state draining c = record c { draining_gauge = c.draining_gauge + 1 }
gauge_state dead c = record c { dead_gauge = c.dead_gauge + 1 }
gauge_state (unrecognized n) c = c

-- The loop of Collect.
unfoldable pub gauges_loop : List WorkerEntry → StateCounts → StateCounts
gauges_loop [] c = c
gauges_loop (e ∷ es) c = gauges_loop es (gauge_state e.state c)

abbrev pub no_gauges : StateCounts
no_gauges = record {
  starting_gauge = 0;
  ready_gauge = 0;
  busy_gauge = 0;
  draining_gauge = 0;
  dead_gauge = 0;
}

unfoldable pub gauges : Registry → StateCounts
gauges r = gauges_loop (list_workers r) no_gauges
