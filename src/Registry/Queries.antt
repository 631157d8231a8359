-- ===== src/Registry/Queries.antt =====
-- The read methods of registry.go.
use llm_inference_control_pl.Common.{
  ℕ, ◌+◌, Bool, true, false, List, [], ◌∷◌, Option, none, some, String, str_eq, Assoc, lookup,
  insert, values, if◌then◌else◌, exists_in, select, ◌&&◌,
}
use llm_inference_control_pl.Registry.{WorkerState, ready, busy, WorkerEntry, Registry}

-- GetWorker: the snapshot and its `ok`
unfoldable pub get_worker : String → Registry → Option WorkerEntry
get_worker id r = lookup id r.workers

-- ListWorkers
unfoldable pub list_workers : Registry → List WorkerEntry
list_workers r = values r.workers

-- e.State == READY || e.State == BUSY
abbrev pub is_healthy : WorkerState → Bool
is_healthy ready = true
is_healthy busy = true
is_healthy _ = false

abbrev pub has_model : String → WorkerEntry → Bool
has_model model e = exists_in (λ m. str_eq m model) e.info.models_loaded

-- HealthyWorkersForModel
unfoldable pub healthy_workers_for_model : String → Registry → List WorkerEntry
healthy_workers_for_model model r =
    select (λ e. is_healthy e.state && has_model model e) (values r.workers)

-- The loop of WorkerCount.
unfoldable pub count_loop : List WorkerEntry → ℕ → ℕ → ℕ × ℕ
count_loop [] total healthy = (total, healthy)
count_loop (e ∷ es) total healthy =
    count_loop es (total + 1) (if is_healthy e.state then healthy + 1 else healthy)

-- WorkerCount
unfoldable pub worker_count : Registry → ℕ × ℕ
unfolding count_loop
worker_count r = count_loop (values r.workers) 0 0

pub record ModelStat : Type 0 where
  pub model : String
  pub total_workers : ℕ
  pub healthy_workers : ℕ

-- The counts of one model, in the map that ModelsServed fills.
pub record Counts : Type 0 where
  pub total : ℕ
  pub healthy : ℕ

abbrev pub or_zero : Option Counts → Counts
or_zero none = record { total = 0; healthy = 0 }
or_zero (some c) = c

abbrev pub bump : Bool → Counts → Counts
bump healthy c = record {
  total = c.total + 1;
  healthy = if healthy then c.healthy + 1 else c.healthy;
}

-- The inner loop of ModelsServed, over the models of one worker.
unfoldable pub count_models : Bool → List String → Assoc Counts → Assoc Counts
count_models healthy [] m = m
count_models healthy (model ∷ models) m =
    count_models healthy models (insert model (bump healthy (or_zero (lookup model m))) m)

-- The outer loop, over the workers.
unfoldable pub count_workers : List WorkerEntry → Assoc Counts → Assoc Counts
unfolding count_models
count_workers [] m = m
count_workers (e ∷ es) m =
    count_workers es (count_models (is_healthy e.state) e.info.models_loaded m)

unfoldable pub stat_list : Assoc Counts → List ModelStat
stat_list [] = []
stat_list ((model, c) ∷ m) =
    record { model = model; total_workers = c.total; healthy_workers = c.healthy } ∷ stat_list m

-- ModelsServed
unfoldable pub models_served : Registry → List ModelStat
unfolding count_workers stat_list
models_served r = stat_list (count_workers (values r.workers) [])
