-- ===== src/Scaler/Examples.antt =====
-- Concrete sweeps of scaler.go.
use llm_inference_control_pl.Common.{
  ◌≡◌, refl, subst, true, List, [], ◌∷◌, none, lookup, insert, delete, pos,
}
use llm_inference_control_pl.Common.Float.{one_bits}
use llm_inference_control_pl.Registry.{WorkerEntry, Registry, new, new_entry, register}
use llm_inference_control_pl.Registry.Examples.{worker}
use llm_inference_control_pl.Registry.Operations.{
  Call, registers, marks, step, mark_dead, buried, evict,
}
use llm_inference_control_pl.Registry.Invariant.{Inv, run, run-new-Inv}
use llm_inference_control_pl.Registry.Queries.{list_workers}
use llm_inference_control_pl.Scaler.{Scaler, World, sweep, sweep_workers, handle_dead}
use llm_inference_control_pl.Scaler.Sweeps.{quietly, sweep-survivor}
use llm_inference_control_pl.Scaler.Races.{handle_dead-evicts}

abbrev scaler : Scaler
scaler = record { sweep_interval = 30; dead_grace = 30; min_healthy = pos 1; hook_set = true }

-- A worker that was marked DEAD at 40, and one that has registered.
abbrev calls : List Call
calls =
    registers 0 0 (worker "a" one_bits)
    ∷ marks 40 40 "a"
    ∷ registers 50 50 (worker "b" one_bits)
    ∷ []

abbrev dead_entry : WorkerEntry
dead_entry = buried 40 (new_entry (worker "a" one_bits) 0 15)

abbrev registry : Registry
registry = record {
  workers = ("a", dead_entry) ∷ ("b", new_entry (worker "b" one_bits) 50 65) ∷ [];
  dead_timeout = 15;
}

registry_eq : run (new 15) calls ≡ registry
unfolding run step new register mark_dead insert lookup
registry_eq = refl

registry-Inv : Inv registry
registry-Inv = subst Inv registry_eq (run-new-Inv 15 calls)

sweep-survivor_example :
    lookup "a" (sweep (quietly (λ id. 70)) scaler registry).0.registry.workers ≡ none
unfolding lookup
sweep-survivor_example = sweep-survivor scaler (λ id. 70) registry "a" registry-Inv

evicted_by_sweep : (sweep (quietly (λ id. 70)) scaler registry).0.evicted ≡ ("a", "m" ∷ []) ∷ []
unfolding sweep sweep_workers list_workers handle_dead evict lookup delete
evicted_by_sweep = refl

-- "a" registers again after the snapshot, and before it is handled.
abbrev racing : World
racing = record { clock = λ id. 70; between = λ id r. (register 69 69 (worker "a" one_bits) r).0 }

handle_dead-evicts_example :
    lookup "a"
      (handle_dead racing scaler dead_entry
        (record { registry = registry; evicted = [] })).registry.workers
    ≡ none
unfolding register insert
handle_dead-evicts_example =
    handle_dead-evicts racing scaler dead_entry (record { registry = registry; evicted = [] })
      ((refl, tt), (tt, tt)) refl
