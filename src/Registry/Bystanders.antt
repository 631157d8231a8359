-- ===== src/Registry/Bystanders.antt =====
-- Calls on the registry that leave the state of a worker alone.
use llm_inference_control_pl.Common.{
  ◌+◌, ◌≡◌, refl, sym, ap, subst, ◌∙◌, inl, inr, Bool, true, false, not, some, some-injective,
  String, str_eq, eq_iff, lookup, insert, delete, lookup-insert, lookup-delete, arith, ltb,
  Bool-cases, Option-cases, IsMap,
}
use llm_inference_control_pl.Registry.{
  WorkerState, same_state, dead, valid_transition, Registry, WorkerEntry, register, heartbeat,
}
use llm_inference_control_pl.Registry.Operations.{
  Call, registers, beats, deregisters, evicts, drains, reports, fires, marks, step, deregister,
  evict, request_drain, report_load, fire_timer, mark_dead, fired,
}

-- A call that neither registers, removes, buries nor reports for the worker `id`.
abbrev pub spares : String → Call → Bool
spares id (registers now armed_at info) = not (str_eq info.worker_id id)
spares id (beats reset_at now req) = not (str_eq req.worker_id id)
spares id (deregisters j) = not (str_eq j id)
spares id (evicts j) = not (str_eq j id)
spares id (marks checked_at marked_at j) = not (str_eq j id)
spares id _ = true

-- The entry of `id` has the state and, if it was there, the drain request.
pub record Stands (id : String) (state : WorkerState) (drain : Bool) (r : Registry) : Type 0 where
  pub entry : WorkerEntry
  pub found : lookup id r.workers ≡ some entry
  pub kept_state : entry.state ≡ state
  pub asked : drain ≡ true → entry.drain_requested ≡ true

module _ (id : String) (r : Registry) (state : WorkerState) (drain : Bool)
    (s : Stands id state drain r) where
  -- An entry is written over another one of the same state.
  rewritten :
      (j : String) (w f : WorkerEntry)
      → lookup j r.workers ≡ some w
      → f.state ≡ w.state
      → (w.drain_requested ≡ true → f.drain_requested ≡ true)
      → Stands id state drain (record r { workers = insert j f r.workers })
  rewritten j w f there same kept = elim (Bool-cases (str_eq j id)) [
    | inl at ↦
        let there' : lookup id r.workers ≡ some w =
          subst (λ (i : String). lookup i r.workers ≡ some w) ((eq_iff j id).0 at) there in
        let is : s.entry ≡ w = some-injective s.entry w (sym s.found ∙ there') in
        record {
          entry = f;
          found = rw (lookup-insert j id f r.workers, at) refl;
          kept_state = same ∙ ap (λ (e : WorkerEntry). e.state) (sym is) ∙ s.kept_state;
          asked = λ d. kept (subst (λ (e : WorkerEntry). e.drain_requested ≡ true) is (s.asked d));
        }
    | inr other ↦ record {
      entry = s.entry;
      found = rw (lookup-insert j id f r.workers, other) s.found;
      kept_state = s.kept_state;
      asked = s.asked;
    }
  ]

  -- An entry of another worker is written or removed.
  elsewhere :
      (j : String) (f : WorkerEntry)
      → str_eq j id ≡ false
      → Stands id state drain (record r { workers = insert j f r.workers })
  elsewhere j f other = record {
    entry = s.entry;
    found = rw (lookup-insert j id f r.workers, other) s.found;
    kept_state = s.kept_state;
    asked = s.asked;
  }

  removed :
      (j : String)
      → IsMap r.workers
      → str_eq j id ≡ false
      → Stands id state drain (record r { workers = delete j r.workers })
  removed j v other = record {
    entry = s.entry;
    found = rw (lookup-delete j id r.workers v, other) s.found;
    kept_state = s.kept_state;
    asked = s.asked;
  }

  pub spared_step :
      (c : Call) → IsMap r.workers → spares id c ≡ true → Stands id state drain (step r c)
  unfolding step register heartbeat deregister evict request_drain report_load fire_timer mark_dead
  spared_step (registers now armed_at info) v h = elim (Bool-cases (str_eq info.worker_id "")) [
    | inl x ↦ rw (x, step, register) s
    | inr x ↦ elim (Bool-cases (str_eq info.address "")) [
      | inl y ↦ rw (x, y, step, register) s
      | inr y ↦ rw (x, y, step, register) (elsewhere info.worker_id _ (ground arith))
    ]
  ]
  spared_step (beats reset_at now req) v h = elim (Option-cases (lookup req.worker_id r.workers)) [
    | inl x ↦ rw (x, step, heartbeat) s
    | inr (w, x) ↦ elim (Bool-cases (valid_transition w.state req.state)) [
      | inl t ↦ rw (x, step, heartbeat) (rw t (elsewhere req.worker_id _ (ground arith)))
      | inr t ↦ rw (x, step, heartbeat) (rw t s)
    ]
  ]
  spared_step (deregisters j) v h = elim (Option-cases (lookup j r.workers)) [
    | inl x ↦ rw (x, step, deregister) s
    | inr (w, x) ↦ rw (x, step, deregister) (removed j v (ground arith))
  ]
  spared_step (evicts j) v h = elim (Option-cases (lookup j r.workers)) [
    | inl x ↦ rw (x, step, evict) s
    | inr (w, x) ↦ rw (x, step, evict) (removed j v (ground arith))
  ]
  spared_step (drains j) v h = elim (Option-cases (lookup j r.workers)) [
    | inl x ↦ rw (x, step, request_drain) s
    | inr (w, x) ↦ rw (x, step, request_drain) (rewritten j w _ x refl (λ d. refl))
  ]
  spared_step (reports load) v h = elim (Option-cases (lookup load.worker_id r.workers)) [
    | inl x ↦ rw (x, step, report_load) s
    | inr (w, x) ↦ rw (x, step, report_load) (rewritten load.worker_id w _ x refl (λ d. d))
  ]
  spared_step (fires now j) v h = elim (Option-cases (lookup j r.workers)) [
    | inl x ↦ rw (x, step, fire_timer) s
    | inr (w, x) ↦ elim (Bool-cases (fired now w.deadline_timer)) [
      | inl t ↦ rw (x, step, fire_timer) (rw t (rewritten j w _ x refl (λ d. d)))
      | inr t ↦ rw (x, step, fire_timer) (rw t s)
    ]
  ]
  spared_step (marks checked_at marked_at j) v h = elim (Option-cases (lookup j r.workers)) [
    | inl x ↦ rw (x, step, mark_dead) s
    | inr (w, x) ↦ elim (Bool-cases (same_state w.state dead)) [
      | inl d ↦ rw (x, step, mark_dead) (rw d s)
      | inr d ↦ elim (Bool-cases (ltb checked_at (w.last_heartbeat + r.dead_timeout))) [
        | inl t ↦ rw (x, step, mark_dead) (rw (d, t) s)
        | inr t ↦ rw (x, step, mark_dead) (rw (d, t) (elsewhere j _ (ground arith)))
      ]
    ]
  ]
