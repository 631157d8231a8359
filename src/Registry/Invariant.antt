-- ===== src/Registry/Invariant.antt =====
-- What holds of every entry of the registry, whatever is called and in whatever order.
use llm_inference_control_pl.Common.{
  ℕ, ◌≡◌, refl, subst, ◌⊎◌, inl, inr, Bool, true, false, List, [], ◌∷◌, Option, none, some, String,
  str_eq, lookup, insert, delete, lookup-insert, lookup-delete, arith, eq_iff, IsMap, insert-IsMap,
  delete-IsMap, Option-cases, Bool-cases, ltb, ◌+◌,
}
use llm_inference_control_pl.Registry.{
  WorkerState, dead, unrecognized, valid_transition, same_state, Registry, WorkerEntry, WorkerInfo,
  LoadReport, HeartbeatRequest, new, register, heartbeat,
}
use llm_inference_control_pl.Registry.Operations.{
  Call, registers, beats, deregisters, evicts, drains, reports, fires, marks, step, deregister,
  evict, request_drain, report_load, fire_timer, mark_dead, fired,
}

abbrev pub recognized : WorkerState → Bool
recognized (unrecognized n) = false
recognized _ = true

abbrev is_some {ℓ} : {A : Type ℓ} → Option A → Bool
is_some none = false
is_some (some a) = true

-- An entry stands under the id of its worker and of its load report, has a non-empty id and
-- address and a state with a name, and is stamped as dead exactly if its state is DEAD.
pub record IsWorker (id : String) (e : WorkerEntry) : Type 0 where
  pub id_matches : e.info.worker_id ≡ id
  pub load_matches : e.load.worker_id ≡ id
  pub has_id : str_eq e.info.worker_id "" ≡ false
  pub has_address : str_eq e.info.address "" ≡ false
  pub named_state : recognized e.state ≡ true
  pub stamped : is_some e.marked_dead_at ≡ same_state e.state dead

pub record Inv (r : Registry) : Type 0 where
  pub keys : IsMap r.workers
  pub entries : (id : String) (e : WorkerEntry) → lookup id r.workers ≡ some e → IsWorker id e

pub new-Inv : (timeout : ℕ) → Inv (new timeout)
unfolding new lookup
new-Inv timeout = record { keys = tt; entries = λ id e h. cc }

module _ (r : Registry) (id : String) (v : Inv r) where
  insert-Inv :
      (e : WorkerEntry) → IsWorker id e → Inv (record r { workers = insert id e r.workers })
  insert-Inv e w = record {
    keys = insert-IsMap id e r.workers v.keys;
    entries = λ j f h. split j f (Bool-cases (str_eq id j)) h;
  }
    where
      split :
          (j : String) (f : WorkerEntry)
          → (str_eq id j ≡ true) ⊎ (str_eq id j ≡ false)
          → lookup j (insert id e r.workers) ≡ some f
          → IsWorker j f
      split j f (inl same) h =
          let at : id ≡ j = (eq_iff id j).0 same in
          let is : e ≡ f = ground (arith, lookup-insert id j e r.workers) in
          subst (λ k. IsWorker k f) at (subst (IsWorker id) is w)
      split j f (inr other) h = v.entries j f (ground (arith, lookup-insert id j e r.workers))

  delete-Inv : Inv (record r { workers = delete id r.workers })
  delete-Inv = record {
    keys = delete-IsMap id r.workers v.keys;
    entries = λ j f h. v.entries j f (ground (arith, lookup-delete id j r.workers v.keys));
  }

transition_keeps :
    (from to : WorkerState)
    → valid_transition from to ≡ true
    → recognized from ≡ true
    → (recognized to ≡ true) × (same_state to dead ≡ same_state from dead)
unfolding valid_transition
transition_keeps from to h k = ground arith

module _ (r : Registry) (v : Inv r) where
  register-Inv : (now armed_at : ℕ) (info : WorkerInfo) → Inv (register now armed_at info r).0
  unfolding register
  register-Inv now armed_at info = elim (Bool-cases (str_eq info.worker_id "")) [
    | inl e ↦ rw (e, register) v
    | inr e ↦ elim (Bool-cases (str_eq info.address "")) [
      | inl f ↦ rw (e, f, register) v
      | inr f ↦
          rw (e, f, register)
            (insert-Inv r info.worker_id v _ (record {
              id_matches = refl;
              load_matches = refl;
              has_id = e;
              has_address = f;
              named_state = refl;
              stamped = refl;
            }))
    ]
  ]

  heartbeat-Inv : (reset_at now : ℕ) (req : HeartbeatRequest) → Inv (heartbeat reset_at now req r).0
  unfolding heartbeat
  heartbeat-Inv reset_at now req = elim (Option-cases (lookup req.worker_id r.workers)) [
    | inl e ↦ rw (e, heartbeat) v
    | inr (w, e) ↦ elim (Bool-cases (valid_transition w.state req.state)) [
      | inl t ↦
          let good = v.entries req.worker_id w e in
          rw (e, heartbeat)
            (rw t (
              insert-Inv r req.worker_id v _
                (let kept = transition_keeps w.state req.state t good.named_state in ground arith)))
      | inr t ↦ rw (e, heartbeat) (rw t v)
    ]
  ]

  -- A change of a found entry that keeps it well-formed.
  replace-Inv :
      (id : String) (e f : WorkerEntry)
      → lookup id r.workers ≡ some e
      → (IsWorker id e → IsWorker id f)
      → Inv (record r { workers = insert id f r.workers })
  replace-Inv id e f h keep = insert-Inv r id v f (keep (v.entries id e h))

  deregister-Inv : (id : String) → Inv (deregister id r).0
  unfolding deregister
  deregister-Inv id = elim (Option-cases (lookup id r.workers)) [
    | inl e ↦ rw (e, deregister) v
    | inr (w, e) ↦ rw (e, deregister) (delete-Inv r id v)
  ]

  evict-Inv : (id : String) → Inv (evict id r).0
  unfolding evict
  evict-Inv id = elim (Option-cases (lookup id r.workers)) [
    | inl e ↦ rw (e, evict) v
    | inr (w, e) ↦ rw (e, evict) (delete-Inv r id v)
  ]

  request_drain-Inv : (id : String) → Inv (request_drain id r).0
  unfolding request_drain
  request_drain-Inv id = elim (Option-cases (lookup id r.workers)) [
    | inl e ↦ rw (e, request_drain) v
    | inr (w, e) ↦ rw (e, request_drain) (replace-Inv id w _ e (λ g. ground arith))
  ]

  report_load-Inv : (report : LoadReport) → Inv (report_load report r).0
  unfolding report_load
  report_load-Inv report = elim (Option-cases (lookup report.worker_id r.workers)) [
    | inl e ↦ rw (e, report_load) v
    | inr (w, e) ↦ rw (e, report_load) (replace-Inv report.worker_id w _ e (λ g. ground arith))
  ]

  fire_timer-Inv : (now : ℕ) (id : String) → Inv (fire_timer now id r).0
  unfolding fire_timer
  fire_timer-Inv now id = elim (Option-cases (lookup id r.workers)) [
    | inl e ↦ rw (e, fire_timer) v
    | inr (w, e) ↦ elim (Bool-cases (fired now w.deadline_timer)) [
      | inl t ↦ rw (e, fire_timer) (rw t (replace-Inv id w _ e (λ g. ground arith)))
      | inr t ↦ rw (e, fire_timer) (rw t v)
    ]
  ]

  mark_dead-Inv :
      (checked_at marked_at : ℕ) (id : String) → Inv (mark_dead checked_at marked_at id r)
  unfolding mark_dead
  mark_dead-Inv checked_at marked_at id = elim (Option-cases (lookup id r.workers)) [
    | inl e ↦ rw (e, mark_dead) v
    | inr (w, e) ↦ elim (Bool-cases (same_state w.state dead)) [
      | inl d ↦ rw (e, mark_dead) (rw d v)
      | inr d ↦ elim (Bool-cases (ltb checked_at (w.last_heartbeat + r.dead_timeout))) [
        | inl t ↦ rw (e, mark_dead) (rw (d, t) v)
        | inr t ↦ rw (e, mark_dead) (rw (d, t) (replace-Inv id w _ e (λ g. ground arith)))
      ]
    ]
  ]

  -- Every call, accepted or refused, keeps all entries well-formed.
  pub step-Inv : (c : Call) → Inv (step r c)
  unfolding step
  step-Inv (registers now armed_at info) = register-Inv now armed_at info
  step-Inv (beats reset_at now req) = heartbeat-Inv reset_at now req
  step-Inv (deregisters id) = deregister-Inv id
  step-Inv (evicts id) = evict-Inv id
  step-Inv (drains id) = request_drain-Inv id
  step-Inv (reports report) = report_load-Inv report
  step-Inv (fires now id) = fire_timer-Inv now id
  step-Inv (marks checked_at marked_at id) = mark_dead-Inv checked_at marked_at id

unfoldable pub run : Registry → List Call → Registry
run r [] = r
run r (c ∷ cs) = run (step r c) cs

pub run-Inv : (r : Registry) (cs : List Call) → Inv r → Inv (run r cs)
unfolding run
run-Inv r [] v = v
run-Inv r (c ∷ cs) v = run-Inv (step r c) cs (step-Inv r v c)

-- After any calls on a new registry, no id stands twice, every entry is that of its own worker,
-- with an id and an address and a load report of that worker, its state has a name, and it has a
-- stamp of death exactly if the state is DEAD.
pub run-new-Inv : (timeout : ℕ) (cs : List Call) → Inv (run (new timeout) cs)
run-new-Inv timeout cs = run-Inv (new timeout) cs (new-Inv timeout)
