-- ===== src/Overview/Fleet.antt =====
-- control-plane/api/admin.go: the rows of the handlers for workers and models. Times are those of
-- the registry, and the state of a worker stands for its text.
use llm_inference_control_pl.Common.{
  ℕ, ◌/◌, Bool, List, [], ◌∷◌, ◌++◌, map, Option, none, some, String, Assoc, lookup, insert, ℤ, pos,
  add_int,
}
use llm_inference_control_pl.Common.Float.{Float64}
use llm_inference_control_pl.Registry.{WorkerState, WorkerEntry, Registry}
use llm_inference_control_pl.Registry.Queries.{list_workers, ModelStat, models_served}
use llm_inference_control_pl.Router.{Router, in_flight_snapshot, get_in_flight, id_of}

pub record LoadResp : Type 0 where
  pub queue_depth : ℕ
  pub requests_per_sec : Float64
  pub avg_latency_ms : Float64
  pub vram_used_mb : ℕ

pub record WorkerResp : Type 0 where
  pub id : String
  pub address : String
  pub state : WorkerState
  pub backend : String
  pub provider : String
  pub hardware : String
  pub models : List String
  pub cost_per_hour : Float64
  pub registered_at : ℕ
  pub last_heartbeat : ℕ
  pub drain_requested : Bool
  pub in_flight : ℤ
  pub load : LoadResp

pub record ModelResp : Type 0 where
  pub model : String
  pub total_workers : ℕ
  pub healthy_workers : ℕ
  pub total_in_flight : ℤ

-- toWorkerResp
unfoldable pub to_worker_resp : WorkerEntry → ℤ → WorkerResp
to_worker_resp e in_flight = record {
  id = e.info.worker_id;
  address = e.info.address;
  state = e.state;
  backend = e.info.backend;
  provider = e.info.provider;
  hardware = e.info.hardware;
  models = e.info.models_loaded;
  cost_per_hour = e.info.cost_per_hour;
  registered_at = e.registered_at;
  last_heartbeat = e.last_heartbeat;
  drain_requested = e.drain_requested;
  in_flight = in_flight;
  load = record {
    queue_depth = e.load.queue_depth;
    requests_per_sec = e.load.requests_per_sec;
    avg_latency_ms = e.load.avg_latency_ms;
    vram_used_mb = e.load.vram_used_bytes / 1024 / 1024;
  };
}

-- The rows of listWorkers.
unfoldable pub list_worker_rows : Registry → Router → List WorkerResp
list_worker_rows r rtr =
    map (λ e. to_worker_resp e (get_in_flight (in_flight_snapshot rtr) (id_of e))) (list_workers r)

-- append(workersByModel[m], id)
abbrev pub or_no_ids : Option (List String) → List String
or_no_ids none = []
or_no_ids (some ids) = ids

-- The inner loop over the models of one worker.
unfoldable pub add_models : String → List String → Assoc (List String) → Assoc (List String)
add_models id [] by_model = by_model
add_models id (m ∷ ms) by_model =
    add_models id ms (insert m (or_no_ids (lookup m by_model) ++ id ∷ []) by_model)

-- The outer loop: workersByModel.
unfoldable pub workers_by_model : List WorkerEntry → Assoc (List String) → Assoc (List String)
workers_by_model [] by_model = by_model
workers_by_model (e ∷ es) by_model =
    workers_by_model es (add_models (id_of e) e.info.models_loaded by_model)

-- totalIF += inFlight[wid]
unfoldable pub sum_in_flight : Assoc ℤ → List String → ℤ → ℤ
sum_in_flight in_flight [] total = total
sum_in_flight in_flight (id ∷ ids) total =
    sum_in_flight in_flight ids (add_int total (get_in_flight in_flight id))

abbrev pub to_model_resp : Assoc ℤ → Assoc (List String) → ModelStat → ModelResp
to_model_resp in_flight by_model s = record {
  model = s.model;
  total_workers = s.total_workers;
  healthy_workers = s.healthy_workers;
  total_in_flight = sum_in_flight in_flight (or_no_ids (lookup s.model by_model)) (pos 0);
}

-- The rows of listModels.
unfoldable pub list_model_rows : Registry → Router → List ModelResp
list_model_rows r rtr =
    map (to_model_resp (in_flight_snapshot rtr) (workers_by_model (list_workers r) []))
      (models_served r)
