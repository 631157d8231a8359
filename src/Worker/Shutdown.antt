-- ===== src/Worker/Shutdown.antt =====
-- A drain from the admin API of control-plane/api/admin.go to the end of the worker's process.
use llm_inference_control_pl.Common.{
  ℕ, ◌≡◌, refl, sym, ap, subst, true, false, List, [], ◌∷◌, some, none, String, eq_refl, lookup,
  insert, lookup-insert, All,
}
use llm_inference_control_pl.Common.Http.{status_ok}
use llm_inference_control_pl.Registry.{
  WorkerState, starting, WorkerInfo, Registry, WorkerEntry, Result, ok,
}
use llm_inference_control_pl.Registry.Operations.{step, drains, request_drain}
use llm_inference_control_pl.Registry.Invariant.{Inv, step-Inv}
use llm_inference_control_pl.Overview.Routes.{drain_worker, drain_page, drain_answer}
use llm_inference_control_pl.Worker.{
  System, Event, ticks, lasts, drain_seen, leaves, run_system, start_worker, exited,
}
use llm_inference_control_pl.Worker.Serving.{IsServing}
use llm_inference_control_pl.Worker.Undisturbed.{spares_worker, rises, IsSynced}
use llm_inference_control_pl.Worker.Hearing.{run-IsSynced, started-IsSynced}
use llm_inference_control_pl.Worker.Draining.{run_system-drained}

-- The system after a drain of its worker was requested.
abbrev pub with_drain : System → System
with_drain s = record s { registry = (drain_worker s.node.id s.registry).0 }

request_drain-found :
    (id : String) (r : Registry) (e : WorkerEntry)
    → lookup id r.workers ≡ some e
    → request_drain id r
      ≡ (record r { workers = insert id (record e { drain_requested = true }) r.workers }, ok tt)
unfolding request_drain
request_drain-found id r e h = rw (h, request_drain) refl

drain_worker-IsSynced :
    (s : System)
    → Inv s.registry
    → IsSynced false s
    → ((drain_worker s.node.id s.registry).1 ≡ (status_ok, drain_page s.node.id))
      × Inv (with_drain s).registry
      × IsSynced true (with_drain s)
unfolding drain_worker
drain_worker-IsSynced s v h =
    let asked = request_drain-found s.node.id s.registry h.stands.entry h.stands.found in
    let inv : Inv (request_drain s.node.id s.registry).0 =
      unfold step in step-Inv s.registry v (drains s.node.id) in
    (
      ap (λ (o : Registry × Result (Unit {0})). drain_answer s.node.id o.1) asked,
      inv,
      subst (λ (r : Registry). IsSynced true (record s { registry = r }))
          (sym (ap (λ (o : Registry × Result (Unit {0})). o.0) asked))
          (record {
            state = h.state;
            stands = record {
              entry = record h.stands.entry { drain_requested = true };
              found = rw (lookup-insert, eq_refl s.node.id) refl;
              kept_state = h.stands.kept_state;
              asked = λ d. refl;
            };
            next = h.next;
          }),
    )

-- Take a worker that has registered as STARTING or READY with a well-formed registry, that still
-- serves when the request to drain it comes and after the events that follow, and that the rest of
-- the fleet does not register, remove, bury or report for. The admin API answers the request with
-- 200, and with the next heartbeat of the worker, its last heartbeat and Deregister, its process
-- ends and the registry no longer has it.
pub drain_worker-ends :
    (now armed_at : ℕ) (info : WorkerInfo) (state : WorkerState) (r : Registry) (s : System)
    (before after : List Event) (reset_at beat_at last_reset last_at : ℕ)
    → Inv r
    → start_worker now armed_at info state r ≡ some s
    → rises starting state ≡ true
    → All (λ e. spares_worker s.node.id e ≡ true) before
    → All (λ e. spares_worker (run_system s before).node.id e ≡ true) after
    → IsServing (run_system s before)
    → IsServing (run_system (with_drain (run_system s before)) after)
    → let asked = run_system s before in
      let end =
        run_system
          (run_system (with_drain asked) after)
          (ticks reset_at beat_at ∷ lasts last_reset last_at ∷ drain_seen ∷ leaves ∷ []) in
      ((drain_worker asked.node.id asked.registry).1 ≡ (status_ok, drain_page asked.node.id))
      × (end.node.main ≡ exited)
      × (lookup asked.node.id end.registry.workers ≡ none)
drain_worker-ends now armed_at info state r s before after reset_at beat_at last_reset last_at v h
      ready_soon spared spared' serves serves' =
    let (v₁, synced) = started-IsSynced now armed_at info state r s h ready_soon v in
    let (v₂, synced₂) = run-IsSynced false s before v₁ spared serves synced in
    let (answer, v₃, synced₃) = drain_worker-IsSynced (run_system s before) v₂ synced₂ in
    let (ends, gone) =
      run_system-drained (with_drain (run_system s before)) after reset_at beat_at last_reset
        last_at v₃ synced₃ spared' serves' in
    (answer, ends, gone)
