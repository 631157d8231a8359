-- ===== src/Registry/Lifecycle.antt =====
-- Entries over time: a call and the lifecycle of a worker, and what it makes of other workers.
use llm_inference_control_pl.Common.{
  ℕ, ◌+◌, ◌+◌, ◌≤◌, ◌≡◌, refl, subst, inl, inr, Bool, true, false, some, String, str_eq, lookup,
  insert, lookup-insert, lookup-delete, arith, eq_iff, IsMap, Option-cases, Bool-cases, ltb, not,
}
use llm_inference_control_pl.Registry.{
  WorkerState, starting, ready, busy, draining, dead, unrecognized, valid_transition, same_state,
  Registry, WorkerEntry, WorkerInfo, LoadReport, HeartbeatRequest, register, heartbeat, new_entry,
}
use llm_inference_control_pl.Registry.Operations.{
  Call, registers, deregisters, evicts, deregister, evict, request_drain, report_load, fire_timer,
  mark_dead, fired,
}

-- STARTING, then READY or BUSY, then DRAINING, then DEAD.
abbrev pub stage : WorkerState → ℕ
stage starting = 0
stage ready = 1
stage busy = 1
stage draining = 2
stage dead = 3
stage (unrecognized n) = 4

-- The call neither registers nor removes the worker `id`.
abbrev pub retains : String → Call → Bool
retains id (registers now armed_at info) = not (str_eq info.worker_id id)
retains id (deregisters j) = not (str_eq j id)
retains id (evicts j) = not (str_eq j id)
retains id _ = true

-- The entry of `id` is still there, no earlier in its lifecycle, with the same registration, with
-- its drain request, and, if it was dead, with the same stamp.
pub record Follows (id : String) (e : WorkerEntry) (r : Registry) : Type 0 where
  pub entry : WorkerEntry
  pub found : lookup id r.workers ≡ some entry
  pub later : stage e.state ≤ stage entry.state
  pub same_info : entry.info ≡ e.info
  pub same_start : entry.registered_at ≡ e.registered_at
  pub drain_kept : e.drain_requested ≡ true → entry.drain_requested ≡ true
  pub stamp_kept : e.state ≡ dead → entry.marked_dead_at ≡ e.marked_dead_at

stage_mono : (from to : WorkerState) → valid_transition from to ≡ true → stage from ≤ stage to
unfolding valid_transition
stage_mono from to h = ground arith

module _ (id : String) (e : WorkerEntry) where
  pub unchanged : (r : Registry) → lookup id r.workers ≡ some e → Follows id e r
  unchanged r h = record {
    entry = e;
    found = h;
    later = omega arith;
    same_info = refl;
    same_start = refl;
    drain_kept = λ d. d;
    stamp_kept = λ d. refl;
  }

  -- An entry written under any id follows `e` if it does so whenever it replaces `e`.
  insert-Follows :
      (r : Registry) (j : String) (w f : WorkerEntry)
      → lookup id r.workers ≡ some e
      → lookup j r.workers ≡ some w
      → stage w.state ≤ stage f.state
      → f.info ≡ w.info
      → f.registered_at ≡ w.registered_at
      → (w.drain_requested ≡ true → f.drain_requested ≡ true)
      → (w.state ≡ dead → f.marked_dead_at ≡ w.marked_dead_at)
      → Follows id e (record r { workers = insert j f r.workers })
  insert-Follows r j w f h k stg info start drain stamp = elim (Bool-cases (str_eq j id)) [
    | inl same ↦
        let at : j ≡ id = (eq_iff j id).0 same in
        let is : w ≡ e = ground (arith, subst (λ i. lookup i r.workers ≡ some w) at k) in
        subst (λ (x : WorkerEntry). Follows id x (record r { workers = insert j f r.workers })) is
          (record {
            entry = f;
            found = ground (arith, lookup-insert j id f r.workers);
            later = stg;
            same_info = info;
            same_start = start;
            drain_kept = drain;
            stamp_kept = stamp;
          })
    | inr other ↦
        unchanged (record r { workers = insert j f r.workers })
          (ground (arith, lookup-insert j id f r.workers))
  ]

module _ (id : String) (e : WorkerEntry) (r : Registry) (h : lookup id r.workers ≡ some e) where
  pub register-Follows :
      (now armed_at : ℕ) (info : WorkerInfo)
      → str_eq info.worker_id id ≡ false
      → Follows id e (register now armed_at info r).0
  unfolding register
  register-Follows now armed_at info other = elim (Bool-cases (str_eq info.worker_id "")) [
    | inl x ↦ rw (x, register) (unchanged id e r h)
    | inr x ↦ elim (Bool-cases (str_eq info.address "")) [
      | inl y ↦ rw (x, y, register) (unchanged id e r h)
      | inr y ↦
          rw (x, y, register)
            (unchanged id e _ (
              ground (
                arith,
                lookup-insert info.worker_id id (new_entry info now (armed_at + r.dead_timeout))
                    r.workers,
              )))
    ]
  ]

  pub heartbeat-Follows :
      (reset_at now : ℕ) (req : HeartbeatRequest) → Follows id e (heartbeat reset_at now req r).0
  unfolding heartbeat
  heartbeat-Follows reset_at now req = elim (Option-cases (lookup req.worker_id r.workers)) [
    | inl x ↦ rw (x, heartbeat) (unchanged id e r h)
    | inr (w, x) ↦ elim (Bool-cases (valid_transition w.state req.state)) [
      | inl t ↦
          rw (x, heartbeat)
            (rw t (
              insert-Follows id e r req.worker_id w _ h x (stage_mono w.state req.state t) refl refl
                (λ d. d) (λ d. refl)))
      | inr t ↦ rw (x, heartbeat) (rw t (unchanged id e r h))
    ]
  ]

  pub deregister-Follows :
      (j : String) → str_eq j id ≡ false → IsMap r.workers → Follows id e (deregister j r).0
  unfolding deregister
  deregister-Follows j other m = elim (Option-cases (lookup j r.workers)) [
    | inl x ↦ rw (x, deregister) (unchanged id e r h)
    | inr (w, x) ↦
        rw (x, deregister) (unchanged id e _ (ground (arith, lookup-delete j id r.workers m)))
  ]

  pub evict-Follows :
      (j : String) → str_eq j id ≡ false → IsMap r.workers → Follows id e (evict j r).0
  unfolding evict
  evict-Follows j other m = elim (Option-cases (lookup j r.workers)) [
    | inl x ↦ rw (x, evict) (unchanged id e r h)
    | inr (w, x) ↦ rw (x, evict) (unchanged id e _ (ground (arith, lookup-delete j id r.workers m)))
  ]

  pub request_drain-Follows : (j : String) → Follows id e (request_drain j r).0
  unfolding request_drain
  request_drain-Follows j = elim (Option-cases (lookup j r.workers)) [
    | inl x ↦ rw (x, request_drain) (unchanged id e r h)
    | inr (w, x) ↦
        rw (x, request_drain)
          (insert-Follows id e r j w _ h x (omega arith) refl refl (λ d. refl) (λ d. refl))
  ]

  pub report_load-Follows : (report : LoadReport) → Follows id e (report_load report r).0
  unfolding report_load
  report_load-Follows report = elim (Option-cases (lookup report.worker_id r.workers)) [
    | inl x ↦ rw (x, report_load) (unchanged id e r h)
    | inr (w, x) ↦
        rw (x, report_load)
          (insert-Follows id e r report.worker_id w _ h x (omega arith) refl refl (λ d. d)
            (λ d. refl))
  ]

  pub fire_timer-Follows : (now : ℕ) (j : String) → Follows id e (fire_timer now j r).0
  unfolding fire_timer
  fire_timer-Follows now j = elim (Option-cases (lookup j r.workers)) [
    | inl x ↦ rw (x, fire_timer) (unchanged id e r h)
    | inr (w, x) ↦ elim (Bool-cases (fired now w.deadline_timer)) [
      | inl t ↦
          rw (x, fire_timer)
            (rw t (insert-Follows id e r j w _ h x (omega arith) refl refl (λ d. d) (λ d. refl)))
      | inr t ↦ rw (x, fire_timer) (rw t (unchanged id e r h))
    ]
  ]

  pub mark_dead-Follows :
      (checked_at marked_at : ℕ) (j : String)
      → (((w : WorkerEntry) → lookup j r.workers ≡ some w → stage w.state ≤ 3))
      → Follows id e (mark_dead checked_at marked_at j r)
  unfolding mark_dead
  mark_dead-Follows checked_at marked_at j named = elim (Option-cases (lookup j r.workers)) [
    | inl x ↦ rw (x, mark_dead) (unchanged id e r h)
    | inr (w, x) ↦ elim (Bool-cases (same_state w.state dead)) [
      | inl d ↦ rw (x, mark_dead) (rw d (unchanged id e r h))
      | inr d ↦ elim (Bool-cases (ltb checked_at (w.last_heartbeat + r.dead_timeout))) [
        | inl t ↦ rw (x, mark_dead) (rw (d, t) (unchanged id e r h))
        | inr t ↦
            rw (x, mark_dead)
              (rw (d, t)
                (insert-Follows id e r j w _ h x (named w x) refl refl (λ q. q)
                  (λ q. ground arith)))
      ]
    ]
  ]
