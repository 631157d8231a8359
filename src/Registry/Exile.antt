-- ===== src/Registry/Exile.antt =====
-- A worker that the registry has marked DEAD or evicted, over any calls.
use llm_inference_control_pl.Common.{
  ◌+◌, ◌≤◌, ◌≡◌, subst, ◌⊎◌, inl, inr, Bool, true, false, none, some, String, str_eq, eq_iff,
  eq_refl, lookup, insert, lookup-insert, lookup-delete, arith, IsMap, Bool-cases, Option-cases,
  ltb,
}
use llm_inference_control_pl.Registry.{
  WorkerState, dead, valid_transition, same_state, Registry, WorkerEntry, register, heartbeat,
  new_entry,
}
use llm_inference_control_pl.Registry.Operations.{
  Call, registers, beats, deregisters, evicts, drains, reports, fires, marks, step, deregister,
  evict, request_drain, report_load, fire_timer, mark_dead, fired,
}
use llm_inference_control_pl.Registry.Lifecycle.{stage, retains}
use llm_inference_control_pl.Registry.Histories.{step-Follows}
use llm_inference_control_pl.Registry.Invariant.{Inv, step-Inv, recognized}

-- The call registers the worker `id`.
abbrev pub enrolls : String → Call → Bool
enrolls id (registers now armed_at info) = str_eq info.worker_id id
enrolls id _ = false

insert_other :
    (id j : String) (w f : WorkerEntry) (r : Registry)
    → lookup id r.workers ≡ none
    → lookup j r.workers ≡ some w
    → lookup id (insert j f r.workers) ≡ none
insert_other id j w f r missing there = elim (Bool-cases (str_eq j id)) [
  | inl same ↦
      let there' : lookup id r.workers ≡ some w =
        subst (λ i. lookup i r.workers ≡ some w) ((eq_iff j id).0 same) there in
      absurd cc
  | inr other ↦ rw (lookup-insert j id f r.workers, other) missing
]

module _ (id : String) (r : Registry) (missing : lookup id r.workers ≡ none) where
  -- Only a registration brings a missing worker into the registry.
  missing_step :
      (c : Call) → IsMap r.workers → enrolls id c ≡ false → lookup id (step r c).workers ≡ none
  unfolding step register heartbeat deregister evict request_drain report_load fire_timer mark_dead
  missing_step (registers now armed_at info) v h = ground (
    arith,
    lookup-insert info.worker_id id (new_entry info now (armed_at + r.dead_timeout)) r.workers,
  )
  missing_step (beats reset_at now req) v h = elim (Option-cases (lookup req.worker_id r.workers)) [
    | inl x ↦ rw (x, step, heartbeat) missing
    | inr (w, x) ↦ elim (Bool-cases (valid_transition w.state req.state)) [
      | inl t ↦ rw (x, step, heartbeat) (rw t (insert_other id req.worker_id w _ r missing x))
      | inr t ↦ rw (x, step, heartbeat) (rw t missing)
    ]
  ]
  missing_step (deregisters j) v h = elim (Option-cases (lookup j r.workers)) [
    | inl x ↦ rw (x, step, deregister) missing
    | inr (w, x) ↦ rw (x, step, deregister) (ground (arith, lookup-delete j id r.workers v))
  ]
  missing_step (evicts j) v h = elim (Option-cases (lookup j r.workers)) [
    | inl x ↦ rw (x, step, evict) missing
    | inr (w, x) ↦ rw (x, step, evict) (ground (arith, lookup-delete j id r.workers v))
  ]
  missing_step (drains j) v h = elim (Option-cases (lookup j r.workers)) [
    | inl x ↦ rw (x, step, request_drain) missing
    | inr (w, x) ↦ rw (x, step, request_drain) (insert_other id j w _ r missing x)
  ]
  missing_step (reports load) v h = elim (Option-cases (lookup load.worker_id r.workers)) [
    | inl x ↦ rw (x, step, report_load) missing
    | inr (w, x) ↦ rw (x, step, report_load) (insert_other id load.worker_id w _ r missing x)
  ]
  missing_step (fires now j) v h = elim (Option-cases (lookup j r.workers)) [
    | inl x ↦ rw (x, step, fire_timer) missing
    | inr (w, x) ↦ elim (Bool-cases (fired now w.deadline_timer)) [
      | inl t ↦ rw (x, step, fire_timer) (rw t (insert_other id j w _ r missing x))
      | inr t ↦ rw (x, step, fire_timer) (rw t missing)
    ]
  ]
  missing_step (marks checked_at marked_at j) v h = elim (Option-cases (lookup j r.workers)) [
    | inl x ↦ rw (x, step, mark_dead) missing
    | inr (w, x) ↦ elim (Bool-cases (same_state w.state dead)) [
      | inl d ↦ rw (x, step, mark_dead) (rw d missing)
      | inr d ↦ elim (Bool-cases (ltb checked_at (w.last_heartbeat + r.dead_timeout))) [
        | inl t ↦ rw (x, step, mark_dead) (rw (d, t) missing)
        | inr t ↦ rw (x, step, mark_dead) (rw (d, t) (insert_other id j w _ r missing x))
      ]
    ]
  ]

-- The registry has no entry of the worker, or a DEAD one.
abbrev pub IsExiled : String → Registry → Type 0
IsExiled id r =
    (lookup id r.workers ≡ none)
    ⊎ ((e : WorkerEntry) × (lookup id r.workers ≡ some e) × (e.state ≡ dead))

dead_of_stage : (s : WorkerState) → recognized s ≡ true → stage dead ≤ stage s → s ≡ dead
dead_of_stage s named h = ground arith

-- A call that neither keeps nor registers the worker removes it.
removed_step :
    (id : String) (r : Registry) (c : Call) (e : WorkerEntry)
    → IsMap r.workers
    → lookup id r.workers ≡ some e
    → retains id c ≡ false
    → enrolls id c ≡ false
    → lookup id (step r c).workers ≡ none
unfolding step deregister evict
removed_step id r (registers now armed_at info) e v there kept h = absurd (ground arith)
removed_step id r (beats reset_at now req) e v there kept h = absurd cc
removed_step id r (deregisters j) e v there kept h =
    let same : j ≡ id = (eq_iff j id).0 (ground arith) in
    rw (same, there, step, deregister) (ground (arith, lookup-delete id id r.workers v, eq_refl id))
removed_step id r (evicts j) e v there kept h =
    let same : j ≡ id = (eq_iff j id).0 (ground arith) in
    rw (same, there, step, evict) (ground (arith, lookup-delete id id r.workers v, eq_refl id))
removed_step id r (drains j) e v there kept h = absurd cc
removed_step id r (reports load) e v there kept h = absurd cc
removed_step id r (fires now j) e v there kept h = absurd cc
removed_step id r (marks checked_at marked_at j) e v there kept h = absurd cc

pub step-IsExiled :
    (id : String) (r : Registry) (c : Call)
    → Inv r
    → enrolls id c ≡ false
    → IsExiled id r
    → IsExiled id (step r c)
step-IsExiled id r c v h (inl missing) = inl (missing_step id r missing c v.keys h)
step-IsExiled id r c v h (inr (e, there, is_dead)) = elim (Bool-cases (retains id c)) [
  | inl kept ↦
      let f = step-Follows r c id e v kept there in
      let later : stage dead ≤ stage f.entry.state =
        subst (λ (s : WorkerState). stage s ≤ stage f.entry.state) is_dead f.later in
      inr (
        f.entry,
        f.found,
        dead_of_stage f.entry.state ((step-Inv r v c).entries id f.entry f.found).named_state later,
      )
  | inr removed ↦ inl (removed_step id r c e v.keys there removed h)
]
