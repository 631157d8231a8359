-- ===== src/Scaler.antt =====
-- control-plane/scaler/scaler.go: one sweep over a snapshot of the registry. Other calls may change the
-- registry between the snapshot and an eviction. The lines that are printed as warnings are values.
pub mod Sweeps
pub mod Races
pub mod Rounds
mod Examples
use llm_inference_control_pl.Common.{
  ℕ, zero, suc, ◌+◌, ◌*◌, ◌^◌, Bool, true, false, List, [], ◌∷◌, ◌++◌, Option, none, some, String,
  ltb, ◌==◌, ◌&&◌, if◌then◌else◌, ℤ, pos, int_lt,
}
use llm_inference_control_pl.Registry.{
  WorkerState, starting, ready, busy, draining, dead, unrecognized, WorkerEntry, Registry, Result,
  ok, err,
}
use llm_inference_control_pl.Registry.Operations.{evict}
use llm_inference_control_pl.Registry.Queries.{list_workers, worker_count, ModelStat, models_served}

-- `hook_set` says whether OnWorkerEvicted is set.
pub record Scaler : Type 0 where
  pub sweep_interval : ℕ
  pub dead_grace : ℕ
  pub min_healthy : ℤ
  pub hook_set : Bool

-- New, before the options
unfoldable pub new : Scaler
new = record {
  sweep_interval = 30 * 10 ^ 9;
  dead_grace = 30 * 10 ^ 9;
  min_healthy = pos 1;
  hook_set = false;
}

-- WithSweepInterval
unfoldable pub with_sweep_interval : ℕ → Scaler → Scaler
with_sweep_interval d s = record s { sweep_interval = d }

-- WithDeadGrace
unfoldable pub with_dead_grace : ℕ → Scaler → Scaler
with_dead_grace d s = record s { dead_grace = d }

-- WithMinHealthy
unfoldable pub with_min_healthy : ℤ → Scaler → Scaler
with_min_healthy n s = record s { min_healthy = n }

-- WithOnWorkerEvicted
unfoldable pub with_on_worker_evicted : Scaler → Scaler
with_on_worker_evicted s = record s { hook_set = true }

-- What a sweep works on: the registry, and the calls of OnWorkerEvicted so far, latest first.
pub record Fleet : Type 0 where
  pub registry : Registry
  pub evicted : List (String × List String)

-- The clock when the scaler handles the worker with an id, and what other calls did to the registry
-- just before.
pub record World : Type 0 where
  pub clock : String → ℕ
  pub between : String → Registry → Registry

-- Whether the grace period is over; it is not, as long as there is no stamp of death.
abbrev pub grace_over : Scaler → ℕ → Option ℕ → Bool
grace_over s now none = false
grace_over s now (some marked) = if ltb now (marked + s.dead_grace) then false else true

-- After Evict: no error, or the worker is not there any more.
abbrev pub evicted_from : Scaler → WorkerEntry → Fleet → Registry × Result (Unit {0}) → Fleet
evicted_from s e f (r, err _) = record f { registry = r }
evicted_from s e f (r, ok _) = record {
  registry = r;
  evicted = if s.hook_set then (e.info.worker_id, e.info.models_loaded) ∷ f.evicted else f.evicted;
}

-- handleDead
unfoldable pub handle_dead : World → Scaler → WorkerEntry → Fleet → Fleet
handle_dead w s e f =
    let id = e.info.worker_id in
    let r = w.between id f.registry in
    if grace_over s (w.clock id) e.marked_dead_at
    then evicted_from s e f (evict id r)
    else record f { registry = r }

-- The `switch` of Sweep; the number of healthy workers that it counts is not used.
abbrev pub handle : World → Scaler → WorkerEntry → WorkerState → Fleet → Fleet
handle w s e dead f = handle_dead w s e f
handle w s e starting f = f
handle w s e ready f = f
handle w s e busy f = f
handle w s e draining f = f
handle w s e (unrecognized n) f = f

-- The loop of Sweep over the snapshot.
unfoldable pub sweep_workers : World → Scaler → List WorkerEntry → Fleet → Fleet
sweep_workers w s [] f = f
sweep_workers w s (e ∷ es) f = sweep_workers w s es (handle w s e e.state f)

pub data Warning : Type 0 where
  below_minimum : (healthy : ℕ) → (want : ℤ) → Warning
  no_healthy_workers : (model : String) → (total : ℕ) → Warning

abbrev pub fleet_warning : Scaler → ℕ × ℕ → List Warning
fleet_warning s (total, healthy) =
    if ltb 0 total && int_lt (pos healthy) s.min_healthy
    then below_minimum healthy s.min_healthy ∷ []
    else []

unfoldable pub model_warnings : List ModelStat → List Warning
model_warnings [] = []
model_warnings (m ∷ ms) =
    let rest = model_warnings ms in
    if m.healthy_workers == 0 then no_healthy_workers m.model m.total_workers ∷ rest else rest

-- Sweep, with the warnings that it prints; nothing else runs while it counts.
unfoldable pub sweep : World → Scaler → Registry → Fleet × List Warning
sweep w s r =
    let f = sweep_workers w s (list_workers r) (record { registry = r; evicted = [] }) in
    (f, fleet_warning s (worker_count f.registry) ++ model_warnings (models_served f.registry))
