-- ===== src/Worker.antt =====
-- worker/cmd/mock/main.go and worker/cmd/ollama/main.go: a worker as its goroutines run beside each
-- other, and the registry that it talks to. A remote call is one step on the registry; a lost call is
-- one whose event does not happen. What is printed is not modelled.
pub mod Mock
pub mod Ollama
pub mod Exile
pub mod Serving
pub mod Undisturbed
pub mod Hearing
pub mod Draining
pub mod Shutdown
pub mod Replacement
mod Examples
use llm_inference_control_pl.Common.{
  ℕ, Bool, true, false, List, [], ◌∷◌, Option, none, some, String, if◌then◌else◌,
}
use llm_inference_control_pl.Registry.{
  WorkerState, starting, ready, draining, WorkerInfo, LoadReport, HeartbeatRequest,
  HeartbeatResponse, RegisterResponse, register, Registry, Result, ok, err, heartbeat,
}
use llm_inference_control_pl.Registry.Operations.{Call, beats, deregisters, reports, step}

-- The heartbeat goroutine: in its loop, before the last heartbeat of a drain, or returned after it.
pub data Beater : Type 0 where
  beating last_beat returned : Beater

-- main: in its `select`, before Deregister, or at its end, which ends all goroutines.
pub data Main : Type 0 where
  waiting leaving exited : Main

pub record Node : Type 0 where
  pub id : String
  pub state : WorkerState
  pub beater : Beater
  pub main : Main

-- A worker after it has registered: STARTING for the mock worker, READY for ollama.
abbrev pub registered_node : String → WorkerState → Node
registered_node id state = record { id = id; state = state; beater = beating; main = waiting }

pub record System : Type 0 where
  pub node : Node
  pub registry : Registry

-- What may happen next; a goroutine that was stopped is one whose events happen no more. `loads` is
-- the end of the mock worker's model load, and `others` a call of the rest of the fleet.
pub data Event : Type 0 where
  ticks lasts : (reset_at now : ℕ) → Event
  load_ticks : LoadReport → Event
  loads interrupts drain_seen leaves : Event
  others : Call → Event

abbrev pub report : Node → HeartbeatRequest
report n = record { worker_id = n.id; state = n.state }

abbrev pub last_report : Node → HeartbeatRequest
last_report n = record { worker_id = n.id; state = draining }

-- No goroutine runs after main has ended.
abbrev pub alive : Main → Bool
alive exited = false
alive _ = true

-- After the response: an error is printed only, and so is `drain` unless it is set.
abbrev pub answered : Node → Result HeartbeatResponse → Node
answered n (err e) = n
answered n (ok resp) = if resp.drain then record n { state = draining; beater = last_beat } else n

-- case <-ticker.C of the heartbeat loop
abbrev pub tick : Beater → ℕ → ℕ → System → System
tick beating reset_at now s =
    let beat = heartbeat reset_at now (report s.node) s.registry in
    record { node = answered s.node beat.1; registry = beat.0 }
tick last_beat reset_at now s = s
tick returned reset_at now s = s

-- The last heartbeat, whose error is ignored, and close(drained).
abbrev pub last_tick : Beater → ℕ → ℕ → System → System
last_tick last_beat reset_at now s = record {
  node = record s.node { beater = returned };
  registry = (heartbeat reset_at now (last_report s.node) s.registry).0;
}
last_tick beating reset_at now s = s
last_tick returned reset_at now s = s

-- case <-quit
abbrev pub interrupt : Main → System → System
interrupt waiting s = record s { node = record s.node { main = leaving } }
interrupt leaving s = s
interrupt exited s = s

-- case <-drained
abbrev pub see_drain : Main → Beater → System → System
see_drain waiting returned s = record s { node = record s.node { main = leaving } }
see_drain _ _ s = s

-- Deregister, whose error is printed only, and the end of main.
abbrev pub leave : Main → System → System
leave leaving s = record {
  node = record s.node { main = exited };
  registry = step s.registry (deregisters s.node.id);
}
leave waiting s = s
leave exited s = s

abbrev pub step_alive : System → Event → System
step_alive s (ticks reset_at now) = tick s.node.beater reset_at now s
step_alive s (lasts reset_at now) = last_tick s.node.beater reset_at now s
step_alive s (load_ticks load) = record s {
  registry = step s.registry (reports (record load { worker_id = s.node.id }));
}
step_alive s loads = record s { node = record s.node { state = ready } }
step_alive s interrupts = interrupt s.node.main s
step_alive s drain_seen = see_drain s.node.main s.node.beater s
step_alive s leaves = leave s.node.main s
step_alive s (others c) = record s { registry = step s.registry c }

abbrev pub step_others : System → Event → System
step_others s (others c) = record s { registry = step s.registry c }
step_others s _ = s

unfoldable pub step_system : System → Event → System
step_system s e = if alive s.node.main then step_alive s e else step_others s e

unfoldable pub run_system : System → List Event → System
run_system s [] = s
run_system s (e ∷ es) = run_system (step_system s e) es

abbrev pub joined : WorkerInfo → WorkerState → Registry × Result RegisterResponse → Option System
joined info state (r, err e) = none
joined info state (r, ok resp) =
    some (record { node = registered_node info.worker_id state; registry = r })

-- main up to the goroutines: a failed registration ends the process.
unfoldable pub start_worker :
    (now armed_at : ℕ) → WorkerInfo → WorkerState → Registry → Option System
start_worker now armed_at info state r = joined info state (register now armed_at info r)
