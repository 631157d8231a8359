-- ===== src/Worker/Draining.antt =====
-- A drain request and a worker that is left alone.
use llm_inference_control_pl.Common.{
  ℕ, ◌≡◌, refl, ap, subst, ◌∙◌, inl, inr, Bool, true, List, [], ◌∷◌, none, String, eq_refl, lookup,
  lookup-delete, arith, All, Option-cases,
}
use llm_inference_control_pl.Registry.{
  draining, HeartbeatResponse, HeartbeatRequest, Result, ok, Registry, heartbeat,
}
use llm_inference_control_pl.Registry.Operations.{step, deregister, deregisters, beats}
use llm_inference_control_pl.Registry.Invariant.{Inv, step-Inv}
use llm_inference_control_pl.Worker.{
  Node, System, Event, ticks, lasts, drain_seen, leaves, step_system, run_system, Beater, last_beat,
  Main, waiting, exited, report, last_report, tick, alive, answered,
}
use llm_inference_control_pl.Worker.Serving.{IsServing}
use llm_inference_control_pl.Worker.Undisturbed.{spares_worker, IsSynced, accepted}
use llm_inference_control_pl.Worker.Hearing.{run-id, run-IsSynced}

-- The worker before its last heartbeat.
abbrev drained_node : Node → Node
drained_node n = record { id = n.id; state = draining; beater = last_beat; main = waiting }

told :
    (n : Node) (drain : Bool)
    → drain ≡ true
    → n.main ≡ waiting
    → answered n (ok (record { alive = true; drain = drain })) ≡ drained_node n
told n drain asked waits =
    rw asked (
      ap (λ (m : Main). record { id = n.id; state = draining; beater = last_beat; main = m }) waits)

deregister-missing :
    (id : String) (r : Registry) → Inv r → lookup id (step r (deregisters id)).workers ≡ none
unfolding step deregister
deregister-missing id r v = elim (Option-cases (lookup id r.workers)) [
  | inl x ↦ rw (x, step, deregister) x
  | inr (w, x) ↦
      rw (x, step, deregister) (ground (arith, lookup-delete id id r.workers v.keys, eq_refl id))
]

tick-drains :
    (s : System) (reset_at now : ℕ)
    → IsServing s
    → IsSynced true s
    → step_system s (ticks reset_at now) ≡ record {
      node = drained_node s.node;
      registry = step s.registry (beats reset_at now (report s.node));
    }
unfolding step_system step
tick-drains s reset_at now serves h =
    let lives : alive s.node.main ≡ true = ap alive serves.waits in
    let sent : (heartbeat reset_at now (report s.node) s.registry).1
        ≡ ok (record { alive = true; drain = h.stands.entry.drain_requested }) =
      ap (λ (o : Registry × Result HeartbeatResponse). o.1) (accepted true s reset_at now h) in
    let node : answered s.node (heartbeat reset_at now (report s.node) s.registry).1
        ≡ drained_node s.node =
      ap (answered s.node) sent
      ∙ told s.node h.stands.entry.drain_requested (h.stands.asked refl) serves.waits in
    rw lives (
      ap (λ (b : Beater). tick b reset_at now s) serves.loops
      ∙ ap
          (λ (n : Node). record {
            node = n;
            registry = (heartbeat reset_at now (report s.node) s.registry).0;
          })
          node)

leaves_fleet :
    (n : Node) (r : Registry) (reset_at now : ℕ)
    → Inv r
    → let s =
        run_system
          (record { node = drained_node n; registry = r })
          (lasts reset_at now ∷ drain_seen ∷ leaves ∷ []) in
      (s.node.main ≡ exited) × (lookup n.id s.registry.workers ≡ none)
unfolding run_system step_system
leaves_fleet n r reset_at now v =
    (refl, deregister-missing n.id _ (last-Inv (last_report (drained_node n))))
  where
    last-Inv : (req : HeartbeatRequest) → Inv (heartbeat reset_at now req r).0
    last-Inv req = unfold step in step-Inv r v (beats reset_at now req)

-- A serving worker that the rest of the fleet spares, and whose drain was requested, learns of it
-- with its next heartbeat, whatever happened since: the last heartbeat, the end of the loop and
-- Deregister then end the process and remove the worker from the registry.
pub run_system-drained :
    (s : System) (es : List Event) (reset_at now last_reset last_now : ℕ)
    → Inv s.registry
    → IsSynced true s
    → All (λ e. spares_worker s.node.id e ≡ true) es
    → IsServing (run_system s es)
    → let s' =
        run_system
          (run_system s es)
          (ticks reset_at now ∷ lasts last_reset last_now ∷ drain_seen ∷ leaves ∷ []) in
      (s'.node.main ≡ exited) × (lookup s.node.id s'.registry.workers ≡ none)
unfolding run_system
run_system-drained s es reset_at now last_reset last_now v h spared serves =
    let s' = run_system s es in
    let (v', synced) = run-IsSynced true s es v spared serves h in
    let gone =
      leaves_fleet s'.node (step s'.registry (beats reset_at now (report s'.node))) last_reset
        last_now (step-Inv s'.registry v' (beats reset_at now (report s'.node))) in
    rw (tick-drains s' reset_at now serves synced) (
      gone.0,
      subst
          (λ (id : String).
            lookup id
              (step_system
                (step_system
                  (step_system
                    (record {
                      node = drained_node s'.node;
                      registry = step s'.registry (beats reset_at now (report s'.node));
                    })
                    (lasts last_reset last_now))
                  drain_seen)
                leaves).registry.workers
            ≡ none)
          (run-id s es) gone.1,
    )
