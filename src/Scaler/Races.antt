-- ===== src/Scaler/Races.antt =====
-- handleDead of scaler.go when the registry changes after the snapshot was taken.
use llm_inference_control_pl.Common.{◌≡◌, refl, ◌∙◌, true, none, lookup, IsMap, eq_refl}
use llm_inference_control_pl.Registry.{WorkerEntry}
use llm_inference_control_pl.Registry.Operations.{evict}
use llm_inference_control_pl.Scaler.{Scaler, Fleet, World, grace_over, handle_dead}
use llm_inference_control_pl.Scaler.Sweeps.{evict-lookup, evicted_from-registry}

-- Once the grace period of a DEAD entry of the snapshot is over, its id is not registered after
-- handleDead, whatever other calls have made of its entry since the snapshot.
pub handle_dead-evicts :
    (w : World) (s : Scaler) (e : WorkerEntry) (f : Fleet)
    → IsMap (w.between e.info.worker_id f.registry).workers
    → grace_over s (w.clock e.info.worker_id) e.marked_dead_at ≡ true
    → lookup e.info.worker_id (handle_dead w s e f).registry.workers ≡ none
unfolding handle_dead
handle_dead-evicts w s e f m over =
    let id = e.info.worker_id in
    let r = w.between id f.registry in
    rw over (
      rw (evicted_from-registry s w.clock _ f (evict id r))
        ((evict-lookup s w.clock id id r m).1 ∙ rw (eq_refl id) refl))
