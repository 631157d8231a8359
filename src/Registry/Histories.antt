-- ===== src/Registry/Histories.antt =====
-- The lifecycle over any sequence of calls.
use llm_inference_control_pl.Common.{
  ◌≤◌, ◌≡◌, subst, ◌∙◌, true, List, [], ◌∷◌, some, String, lookup, arith, All,
}
use llm_inference_control_pl.Registry.{WorkerState, dead, Registry, WorkerEntry}
use llm_inference_control_pl.Registry.Operations.{
  Call, registers, beats, deregisters, evicts, drains, reports, fires, marks, step,
}
use llm_inference_control_pl.Registry.Lifecycle.{
  stage, retains, Follows, unchanged, register-Follows, heartbeat-Follows, deregister-Follows,
  evict-Follows, request_drain-Follows, report_load-Follows, fire_timer-Follows, mark_dead-Follows,
}
use llm_inference_control_pl.Registry.Invariant.{Inv, step-Inv, run, recognized}

named_stage : (s : WorkerState) → recognized s ≡ true → stage s ≤ 3
named_stage s h = ground arith

-- A call that does not register or remove a worker leaves its entry in place: never earlier in the
-- lifecycle, the same registration, no drain request withdrawn, no stamp of death rewritten.
pub step-Follows :
    (r : Registry) (c : Call) (id : String) (e : WorkerEntry)
    → Inv r
    → retains id c ≡ true
    → lookup id r.workers ≡ some e
    → Follows id e (step r c)
unfolding step
step-Follows r (registers now armed_at info) id e v k h =
    register-Follows id e r h now armed_at info (ground arith)
step-Follows r (beats reset_at now req) id e v k h = heartbeat-Follows id e r h reset_at now req
step-Follows r (deregisters j) id e v k h = deregister-Follows id e r h j (ground arith) v.keys
step-Follows r (evicts j) id e v k h = evict-Follows id e r h j (ground arith) v.keys
step-Follows r (drains j) id e v k h = request_drain-Follows id e r h j
step-Follows r (reports report) id e v k h = report_load-Follows id e r h report
step-Follows r (fires now j) id e v k h = fire_timer-Follows id e r h now j
step-Follows r (marks checked_at marked_at j) id e v k h =
    mark_dead-Follows id e r h checked_at marked_at j
      (λ w x. named_stage w.state (v.entries j w x).named_state)

stage-dead : (s : WorkerState) → recognized s ≡ true → 3 ≤ stage s → s ≡ dead
stage-dead s k h = ground arith

Follows-trans :
    (id : String) (e : WorkerEntry) (r s : Registry) (f : Follows id e r)
    → recognized f.entry.state ≡ true
    → Follows id f.entry s
    → Follows id e s
Follows-trans id e r s f named g = record {
  entry = g.entry;
  found = g.found;
  later = omega (arith, f.later, g.later);
  same_info = g.same_info ∙ f.same_info;
  same_start = g.same_start ∙ f.same_start;
  drain_kept = λ d. g.drain_kept (f.drain_kept d);
  stamp_kept = λ d.
      g.stamp_kept
        (stage-dead f.entry.state named (subst (λ s. stage s ≤ stage f.entry.state) d f.later))
      ∙ f.stamp_kept d;
}

-- Through any calls on a well-formed registry that do not register or remove a worker, its entry
-- stays, no earlier in the lifecycle, with the same registration; a drain request is not withdrawn,
-- and a dead worker keeps its stamp of death.
pub run-Follows :
    (r : Registry) (cs : List Call) (id : String) (e : WorkerEntry)
    → Inv r
    → All (λ c. retains id c ≡ true) cs
    → lookup id r.workers ≡ some e
    → Follows id e (run r cs)
unfolding run
run-Follows r [] id e v k h = unchanged id e r h
run-Follows r (c ∷ cs) id e v k h =
    let f = step-Follows r c id e v k.0 h in
    let v' = step-Inv r v c in
    Follows-trans id e (step r c) (run (step r c) cs) f (v'.entries id f.entry f.found).named_state
      (run-Follows (step r c) cs id f.entry v' k.1 f.found)
