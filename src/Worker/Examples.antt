-- ===== src/Worker/Examples.antt =====
-- Concrete workers, from their registration to a drain and to an eviction.
use llm_inference_control_pl.Common.{
  String, true, Bool, arith, ◌≡◌, refl, true, false, List, [], ◌∷◌, none, some, lookup, insert,
  delete, All, inr, str_eq, ◌^◌, ◌-◌,
}
use llm_inference_control_pl.Common.Text.{split}
use llm_inference_control_pl.Common.Http.{status_ok}
use llm_inference_control_pl.Common.Float.{one_bits}
use llm_inference_control_pl.Registry.{
  starting, ready, new, register, heartbeat, valid_transition, ok,
}
use llm_inference_control_pl.Registry.Operations.{
  drains, evicts, step, deregister, request_drain, mark_dead,
}
use llm_inference_control_pl.Registry.Invariant.{new-Inv, run, run-new-Inv}
use llm_inference_control_pl.Registry.Queries.{healthy_workers_for_model}
use llm_inference_control_pl.Registry.Examples.{lost_worker}
use llm_inference_control_pl.Overview.Routes.{drain_worker, drain_page}
use llm_inference_control_pl.Provisioner.{DockerProvisioner, provision_args}
use llm_inference_control_pl.ControlPlane.{Flags, default_flags}
use llm_inference_control_pl.Worker.{
  System, Event, ticks, lasts, loads, drain_seen, leaves, others, step_system, run_system,
  start_worker, report, exited, registered_node,
}
use llm_inference_control_pl.Worker.Serving.{IsServing}
use llm_inference_control_pl.Worker.Hearing.{start_worker-heard}
use llm_inference_control_pl.Registry.Exile.{IsExiled}
use llm_inference_control_pl.Worker.Exile.{run_system-unrouted}
use llm_inference_control_pl.Worker.Shutdown.{with_drain, drain_worker-ends}
use llm_inference_control_pl.Worker.Replacement.{provision_args-replaces}
use llm_inference_control_pl.Worker.Mock.{
  FlagValues, MockFlags, default_mock, mock_info, parse_args,
}
use llm_inference_control_pl.Worker.Ollama.{total_vram}

-- The mock worker of the default flags.
abbrev started : System
started = record {
  node = registered_node "mock-worker-1" starting;
  registry = (register 0 0 (mock_info default_mock) (new 15)).0;
}

mock_starts : start_worker 0 0 (mock_info default_mock) starting (new 15) ≡ some started
unfolding start_worker register
mock_starts = refl

-- It beats, has loaded its model and beats again, while a load report of it and a drain of another
-- worker come in between.
abbrev events : List Event
events = ticks 1 1 ∷ loads ∷ others (drains "other") ∷ ticks 5 5 ∷ []

events-IsServing : IsServing (run_system started events)
unfolding run_system step_system step start_worker register heartbeat valid_transition request_drain
    drain_worker deregister lookup insert delete new split
events-IsServing = record { loops = refl; waits = refl }

start_worker-heard_example :
    let s' = run_system started events in
    (drain : Bool) × ((heartbeat 10 10 (report s'.node) s'.registry).1
      ≡ ok (record { alive = true; drain = drain }))
start_worker-heard_example =
    start_worker-heard 0 0 (mock_info default_mock) starting (new 15) started events 10 10
      (new-Inv 15) mock_starts refl (ground arith) events-IsServing

-- The system after those events, and after the drain and two more.
abbrev asked : System
asked = run_system started events

abbrev more : List Event
more = others (drains "other") ∷ loads ∷ []

more-IsServing : IsServing (run_system (with_drain asked) more)
unfolding run_system step_system step start_worker register heartbeat valid_transition request_drain
    drain_worker deregister lookup insert delete new split
more-IsServing = record { loops = refl; waits = refl }

drain_worker-ends_example :
    let end =
      run_system
        (run_system (with_drain asked) more)
        (ticks 15 15 ∷ lasts 16 16 ∷ drain_seen ∷ leaves ∷ []) in
    ((drain_worker asked.node.id asked.registry).1 ≡ (status_ok, drain_page asked.node.id))
    × (end.node.main ≡ exited)
    × (lookup asked.node.id end.registry.workers ≡ none)
drain_worker-ends_example =
    drain_worker-ends 0 0 (mock_info default_mock) starting (new 15) started events more 15 15 16 16
      (new-Inv 15) mock_starts refl (ground arith) (ground arith) events-IsServing more-IsServing

-- A worker that was marked DEAD at 40 beats again, is evicted and beats on.
abbrev lost : System
lost = record { node = registered_node "a" ready; registry = run (new 15) lost_worker }

abbrev revival : List Event
revival = ticks 50 50 ∷ others (evicts "a") ∷ ticks 55 55 ∷ []

lost-IsExiled : IsExiled "a" lost.registry
unfolding run step register heartbeat valid_transition mark_dead new lookup insert
lost-IsExiled = inr (_, refl, refl)

run_system-unrouted_example :
    All
      (λ e. str_eq e.info.worker_id "a" ≡ false)
      (healthy_workers_for_model "m" (run_system lost revival).registry)
run_system-unrouted_example =
    run_system-unrouted lost revival "a" "m" (run-new-Inv 15 lost_worker) lost-IsExiled
      (ground arith)

abbrev cp_flags : Flags
cp_flags = record default_flags { docker_image = "i" }

abbrev provisioner : DockerProvisioner
provisioner = record {
  image = "i";
  control_plane = "host.docker.internal:50051";
  extra_args = [];
  run = none;
}

abbrev plain_values : FlagValues
plain_values = record {
  uint64 = λ s. some 0;
  float64 = λ s. some one_bits;
  is_duration = λ s. true;
}

provision_args-replaces_example :
    (args : List String) × (provision_args provisioner "a-r1" ("m" ∷ "n" ∷ [])
      ≡ "run" ∷ "--rm" ∷ "--detach" ∷ "--name" ∷ "a-r1" ∷ "i" ∷ args)
    × (f : MockFlags) × (parse_args plain_values args default_mock ≡ some f)
    × ((mock_info f).worker_id ≡ "a-r1")
    × ((mock_info f).models_loaded ≡ "m" ∷ "n" ∷ [])
    × ((mock_info f).address ≡ "localhost:8080")
provision_args-replaces_example =
    provision_args-replaces cp_flags plain_values provisioner "a-r1" ("m" ∷ "n" ∷ []) refl (cc)
      (ground arith)

-- ExtraArgs of the operator are read as well.
extra_read :
    parse_args plain_values ("--vram" ∷ "24" ∷ "--addr" ∷ "gpu:1" ∷ []) default_mock
    ≡ some (record default_mock { vram = 0; addr = "gpu:1" })
unfolding parse_args
extra_read = refl

-- The sum of the sizes is taken in uint64.
vram_wraps : total_vram ((2 ^ 64 - 1) ∷ 3 ∷ []) 0 ≡ 2
unfolding total_vram
vram_wraps = refl
