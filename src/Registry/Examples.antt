-- ===== src/Registry/Examples.antt =====
-- Concrete runs of the registry of registry.go.
use llm_inference_control_pl.Common.{
  ℕ, ◌≡◌, ◌↔◌, ◌⊎◌, inl, refl, false, List, [], ◌∷◌, some, subst, String, arith, lookup, All, Elem,
  values,
}
use llm_inference_control_pl.Common.{insert}
use llm_inference_control_pl.Common.Float.{one_bits, Float64}
use llm_inference_control_pl.Registry.{
  ready, busy, WorkerInfo, HeartbeatRequest, WorkerEntry, armed, idle, Registry, new, new_entry,
  register, heartbeat, valid_transition,
}
use llm_inference_control_pl.Registry.Operations.{
  Call, registers, beats, drains, marks, step, buried, mark_dead, fire_timer,
}
use llm_inference_control_pl.Registry.Queries.{healthy_workers_for_model, models_served, ModelStat}
use llm_inference_control_pl.Registry.Invariant.{Inv, run, run-new-Inv}
use llm_inference_control_pl.Registry.Lifecycle.{Follows}
use llm_inference_control_pl.Registry.Histories.{run-Follows}
use llm_inference_control_pl.Registry.Deadline.{silent_worker_dies, early_deadline_never_dies}
use llm_inference_control_pl.Registry.Catalog.{IsFleet, healthy_workers_exact}
use llm_inference_control_pl.Registry.Models.{
  fleet_listed, healthy_listed, models_served_exact, models_served-agrees_with_router,
}

abbrev pub worker : String → Float64 → WorkerInfo
worker id cost = record {
  worker_id = id;
  address = "10.0.0.1:8000";
  gpu_type = "A100";
  vram_bytes = 80;
  models_loaded = "m" ∷ [];
  backend = "vllm";
  provider = "p";
  hardware = "h";
  cost_per_hour = cost;
}

-- A worker that registers, is READY, loses its heartbeat and is marked DEAD at 40.
abbrev pub lost_worker : List Call
lost_worker =
    registers 0 0 (worker "a" one_bits)
    ∷ beats 1 1 (record { worker_id = "a"; state = ready })
    ∷ marks 40 40 "a"
    ∷ []

run-new-Inv_example : Inv (run (new 15) lost_worker)
run-new-Inv_example = run-new-Inv 15 lost_worker

-- The registry before the worker is lost, and the entry of the worker.
abbrev ready_entry : WorkerEntry
ready_entry = record (new_entry (worker "a" one_bits) 0 15) {
  state = ready;
  last_heartbeat = 1;
  deadline_timer = armed 16;
}

abbrev pub ready_registry : Registry
ready_registry = record { workers = ("a", ready_entry) ∷ []; dead_timeout = 15 }

abbrev start : List Call
start =
    registers 0 0 (worker "a" one_bits) ∷ beats 1 1 (record { worker_id = "a"; state = ready }) ∷ []

ready_registry_eq : run (new 15) start ≡ ready_registry
unfolding run step new register heartbeat valid_transition insert lookup
ready_registry_eq = refl

pub ready-Inv : Inv ready_registry
ready-Inv = subst Inv ready_registry_eq (run-new-Inv 15 start)

run-Follows_example :
    Follows "a" ready_entry (run ready_registry (drains "a" ∷ marks 40 40 "a" ∷ []))
unfolding lookup
run-Follows_example =
    run-Follows ready_registry (drains "a" ∷ marks 40 40 "a" ∷ []) "a" ready_entry ready-Inv
      (refl, (refl, tt)) refl

abbrev still_ready : HeartbeatRequest
still_ready = record { worker_id = "a"; state = ready }

abbrev silent_from : ℕ → WorkerEntry
silent_from now = record ready_entry { deadline_timer = idle; last_heartbeat = now }

silent_worker_dies_example :
    lookup "a"
      (mark_dead 40 41 "a"
        (fire_timer 35 "a" (heartbeat 20 20 still_ready ready_registry).0).0).workers
    ≡ some (buried 41 (silent_from 20))
unfolding lookup valid_transition
silent_worker_dies_example =
    silent_worker_dies still_ready ready_registry ready_entry refl refl 20 20 35 40 41 (omega arith)
      (omega arith) refl

-- The clock is read at 22, two after the timer was reset, and the timer's goroutine looks at 36.
early_deadline_never_dies_example :
    (lookup "a"
        (mark_dead 36 36 "a"
          (fire_timer 35 "a" (heartbeat 20 22 still_ready ready_registry).0).0).workers
      ≡ some (silent_from 22))
    × (fire_timer 1000 "a"
          (mark_dead 36 36 "a" (fire_timer 35 "a" (heartbeat 20 22 still_ready ready_registry).0).0)
        ≡ (
          mark_dead 36 36 "a" (fire_timer 35 "a" (heartbeat 20 22 still_ready ready_registry).0).0,
          false,
        ))
unfolding lookup valid_transition
early_deadline_never_dies_example =
    early_deadline_never_dies still_ready ready_registry ready_entry refl refl 20 22 35 36 36 1000
      (omega arith) (omega arith) (omega arith) refl

healthy_workers_exact_example :
    IsFleet (healthy_workers_for_model "m" ready_registry)
    × ((e : WorkerEntry)
        → Elem e (healthy_workers_for_model "m" ready_registry) ↔ (
            (id : String) × (lookup id ready_registry.workers ≡ some e)
            × ((e.state ≡ ready) ⊎ (e.state ≡ busy))
            × Elem "m" e.info.models_loaded))
healthy_workers_exact_example = healthy_workers_exact ready_registry ready-Inv "m"

models_served_exact_example :
    All
      (λ s.
        (s.total_workers ≡ fleet_listed s.model (values ready_registry.workers))
        × (s.healthy_workers ≡ healthy_listed s.model (values ready_registry.workers)))
      (models_served ready_registry)
models_served_exact_example = models_served_exact ready_registry

abbrev figure : ModelStat
figure = record { model = "m"; total_workers = 1; healthy_workers = 1 }

models_served-agrees_with_router_example :
    (figure.healthy_workers ≡ 0) ↔ (healthy_workers_for_model "m" ready_registry ≡ [])
unfolding models_served insert lookup
models_served-agrees_with_router_example =
    models_served-agrees_with_router ready_registry figure (inl refl)
