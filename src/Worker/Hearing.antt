-- ===== src/Worker/Hearing.antt =====
-- The heartbeats of a worker that is left alone.
use llm_inference_control_pl.Common.{
  ℕ, ◌+◌, ◌≡◌, refl, sym, ap, subst, ◌∙◌, inl, inr, Bool, true, false, List, [], ◌∷◌, some,
  some-injective, String, eq_refl, lookup, lookup-insert, arith, All, Bool-cases,
}
use llm_inference_control_pl.Registry.{
  WorkerInfo, register, new_entry, WorkerState, starting, HeartbeatResponse, RegisterResponse,
  Result, ok, err, Registry, heartbeat,
}
use llm_inference_control_pl.Registry.Operations.{registers, step}
use llm_inference_control_pl.Registry.Invariant.{Inv, step-Inv}
use llm_inference_control_pl.Worker.{
  Node, System, Event, ticks, lasts, load_ticks, loads, interrupts, drain_seen, leaves, others,
  step_system, run_system, Beater, beating, last_beat, returned, Main, waiting, leaving, exited,
  report, tick, last_tick, interrupt, see_drain, leave, step_alive, step_others, alive, answered,
  start_worker, joined, registered_node,
}
use llm_inference_control_pl.Worker.Serving.{IsServing, step-serves}
use llm_inference_control_pl.Worker.Undisturbed.{
  spares_worker, rises, IsSynced, accepted, step-IsSynced,
}
use llm_inference_control_pl.Worker.Exile.{step_system-Inv}

answered-id : (n : Node) (o : Result HeartbeatResponse) → (answered n o).id ≡ n.id
answered-id n (err e) = refl
answered-id n (ok resp) = ground arith

moves-id :
    (b : Beater) (m : Main) (s : System) (reset_at now : ℕ)
    → ((tick b reset_at now s).node.id ≡ s.node.id)
      × ((last_tick b reset_at now s).node.id ≡ s.node.id)
      × ((interrupt m s).node.id ≡ s.node.id)
      × ((see_drain m b s).node.id ≡ s.node.id)
      × ((leave m s).node.id ≡ s.node.id)
moves-id beating waiting s reset_at now = (answered-id s.node _, refl, refl, refl, refl)
moves-id beating leaving s reset_at now = (answered-id s.node _, refl, refl, refl, refl)
moves-id beating exited s reset_at now = (answered-id s.node _, refl, refl, refl, refl)
moves-id last_beat waiting s reset_at now = (refl, refl, refl, refl, refl)
moves-id last_beat leaving s reset_at now = (refl, refl, refl, refl, refl)
moves-id last_beat exited s reset_at now = (refl, refl, refl, refl, refl)
moves-id returned waiting s reset_at now = (refl, refl, refl, refl, refl)
moves-id returned leaving s reset_at now = (refl, refl, refl, refl, refl)
moves-id returned exited s reset_at now = (refl, refl, refl, refl, refl)

step-id : (s : System) (e : Event) → (step_system s e).node.id ≡ s.node.id
unfolding step_system
step-id s e = elim (Bool-cases (alive s.node.main)) [
  | inl t ↦ rw t (alive-id e)
  | inr t ↦ rw t (others-id e)
]
  where
    alive-id : (e : Event) → (step_alive s e).node.id ≡ s.node.id
    alive-id (ticks reset_at now) = (moves-id s.node.beater s.node.main s reset_at now).0
    alive-id (lasts reset_at now) = (moves-id s.node.beater s.node.main s reset_at now).1
    alive-id (load_ticks load) = refl
    alive-id loads = refl
    alive-id interrupts = (moves-id s.node.beater s.node.main s 0 0).2
    alive-id drain_seen = (moves-id s.node.beater s.node.main s 0 0).3
    alive-id leaves = (moves-id s.node.beater s.node.main s 0 0).4
    alive-id (others c) = refl

    others-id : (e : Event) → (step_others s e).node.id ≡ s.node.id
    others-id (others c) = refl
    others-id (ticks reset_at now) = refl
    others-id (lasts reset_at now) = refl
    others-id (load_ticks load) = refl
    others-id loads = refl
    others-id interrupts = refl
    others-id drain_seen = refl
    others-id leaves = refl

run-serves : (s : System) (es : List Event) → IsServing (run_system s es) → IsServing s
unfolding run_system
run-serves s [] h = h
run-serves s (e ∷ es) h = step-serves s e (run-serves (step_system s e) es h)

pub run-IsSynced :
    (drain : Bool) (s : System) (es : List Event)
    → Inv s.registry
    → All (λ e. spares_worker s.node.id e ≡ true) es
    → IsServing (run_system s es)
    → IsSynced drain s
    → Inv (run_system s es).registry × IsSynced drain (run_system s es)
unfolding run_system
run-IsSynced drain s [] v spared serves h = (v, h)
run-IsSynced drain s (e ∷ es) v spared serves h =
    let s' = step_system s e in
    run-IsSynced drain s' es (step_system-Inv s.node.id s e v)
      (subst (λ (id : String). All (λ e. spares_worker id e ≡ true) es) (sym (step-id s e))
        spared.1)
      serves (step-IsSynced drain s e v spared.0 (run-serves s' es serves) h)

pub run-id : (s : System) (es : List Event) → (run_system s es).node.id ≡ s.node.id
unfolding run_system
run-id s [] = refl
run-id s (e ∷ es) = run-id (step_system s e) es ∙ step-id s e

register-entry :
    (now armed_at : ℕ) (info : WorkerInfo) (r : Registry) (resp : RegisterResponse)
    → (register now armed_at info r).1 ≡ ok resp
    → lookup info.worker_id (register now armed_at info r).0.workers
      ≡ some (new_entry info now (armed_at + r.dead_timeout))
unfolding register
register-entry now armed_at info r resp h = ground (
  arith,
  lookup-insert info.worker_id info.worker_id (new_entry info now (armed_at + r.dead_timeout))
      r.workers,
  eq_refl info.worker_id,
)

joined-some :
    (info : WorkerInfo) (state : WorkerState) (o : Registry × Result RegisterResponse) (s : System)
    → joined info state o ≡ some s
    → (resp : RegisterResponse) × (o.1 ≡ ok resp)
      × (s ≡ record { node = registered_node info.worker_id state; registry = o.0 })
joined-some info state (r, err e) s h = absurd cc
joined-some info state (r, ok resp) s h = (resp, refl, sym (some-injective _ s h))

pub started-IsSynced :
    (now armed_at : ℕ) (info : WorkerInfo) (state : WorkerState) (r : Registry) (s : System)
    → start_worker now armed_at info state r ≡ some s
    → rises starting state ≡ true
    → Inv r
    → Inv s.registry × IsSynced false s
unfolding start_worker step
started-IsSynced now armed_at info state r s h ready_soon v =
    let (resp, registered, is) = joined-some info state (register now armed_at info r) s h in
    subst (λ (x : System). Inv x.registry × IsSynced false x) (sym is)
      (
        step-Inv r v (registers now armed_at info),
        record {
          state = starting;
          stands = record {
            entry = new_entry info now (armed_at + r.dead_timeout);
            found = register-entry now armed_at info r resp registered;
            kept_state = refl;
            asked = λ d. absurd cc;
          };
          next = ready_soon;
        },
      )

-- From its registration as STARTING or READY with a well-formed registry on, the next heartbeat of
-- a worker that still serves is accepted, whatever happened in between, if the rest of the fleet
-- did not register, remove, bury or report for it.
pub start_worker-heard :
    (now armed_at : ℕ) (info : WorkerInfo) (state : WorkerState) (r : Registry) (s : System)
    (es : List Event) (reset_at beat_at : ℕ)
    → Inv r
    → start_worker now armed_at info state r ≡ some s
    → rises starting state ≡ true
    → All (λ e. spares_worker s.node.id e ≡ true) es
    → IsServing (run_system s es)
    → let s' = run_system s es in
      (drain : Bool) × ((heartbeat reset_at beat_at (report s'.node) s'.registry).1
        ≡ ok (record { alive = true; drain = drain }))
start_worker-heard now armed_at info state r s es reset_at beat_at v h ready_soon spared serves =
    let s' = run_system s es in
    let (v', synced) = started-IsSynced now armed_at info state r s h ready_soon v in
    let (_, synced') = run-IsSynced false s es v' spared serves synced in
    (
      synced'.stands.entry.drain_requested,
      ap (λ (o : Registry × Result HeartbeatResponse). o.1)
          (accepted false s' reset_at beat_at synced'),
    )
