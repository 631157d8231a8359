-- ===== src/Registry/Deadline.antt =====
-- Death by silence: markDead and the deadline timer.
use llm_inference_control_pl.Common.{
  ℕ, ◌+◌, ◌≤◌, ◌<◌, ◌≡◌, refl, inl, inr, true, false, some, String, lookup, lookup-insert, arith,
  if◌then◌else◌, eq_refl, Bool-cases, ltb,
}
use llm_inference_control_pl.Registry.{
  dead, valid_transition, same_state, Registry, WorkerEntry, HeartbeatRequest, heartbeat, beat,
  idle, ok,
}
use llm_inference_control_pl.Registry.Operations.{fire_timer, mark_dead, buried, fired}

module _ (id : String) (r : Registry) (e : WorkerEntry) (h : lookup id r.workers ≡ some e) where
  -- For a registered worker, markDead sets DEAD and the stamp exactly if the worker is not DEAD and
  -- its last heartbeat is at least the timeout ago, and changes no other field of its entry.
  pub mark_dead_exact :
      (checked_at marked_at : ℕ)
      → lookup id (mark_dead checked_at marked_at id r).workers ≡ (
          if same_state e.state dead
          then some e
          else if ltb checked_at (e.last_heartbeat + r.dead_timeout)
          then some e
          else some (buried marked_at e))
  unfolding mark_dead
  mark_dead_exact checked_at marked_at = elim (Bool-cases (same_state e.state dead)) [
    | inl d ↦ rw (h, mark_dead) (rw d h)
    | inr d ↦ elim (Bool-cases (ltb checked_at (e.last_heartbeat + r.dead_timeout))) [
      | inl t ↦ rw (h, mark_dead) (rw (d, t) h)
      | inr t ↦
          rw (h, mark_dead)
            (rw (d, t)
              (ground (arith, eq_refl id, lookup-insert id id (buried marked_at e) r.workers)))
    ]
  ]

  fire_timer_found :
      (now : ℕ)
      → fired now e.deadline_timer ≡ true
      → lookup id (fire_timer now id r).0.workers ≡ some (record e { deadline_timer = idle })
  unfolding fire_timer
  fire_timer_found now due =
      rw (h, fire_timer)
        (rw due (
          ground (
            arith,
            eq_refl id,
            lookup-insert id id (record e { deadline_timer = idle }) r.workers,
          )))

  fire_timer_not_due :
      (now : ℕ) → fired now e.deadline_timer ≡ false → fire_timer now id r ≡ (r, false)
  unfolding fire_timer
  fire_timer_not_due now early = rw (h, fire_timer) (rw early)

  fire_timer_timeout : (now : ℕ) → (fire_timer now id r).0.dead_timeout ≡ r.dead_timeout
  unfolding fire_timer
  fire_timer_timeout now = rw (h, fire_timer) (ground arith)

module _ (req : HeartbeatRequest) (r : Registry) (e : WorkerEntry)
    (h : lookup req.worker_id r.workers ≡ some e)
    (allowed : valid_transition e.state req.state ≡ true) where
  -- An accepted heartbeat records the state, restarts the timer and passes the drain request on.
  pub heartbeat_accepted :
      (reset_at now : ℕ)
      → (lookup req.worker_id (heartbeat reset_at now req r).0.workers
          ≡ some (beat reset_at now r.dead_timeout req.state e))
        × ((heartbeat reset_at now req r).1
            ≡ ok (record { alive = true; drain = e.drain_requested }))
        × ((heartbeat reset_at now req r).0.dead_timeout ≡ r.dead_timeout)
  unfolding heartbeat
  heartbeat_accepted reset_at now =
      rw (h, heartbeat)
        (rw allowed (
          ground (
            arith,
            eq_refl req.worker_id,
            lookup-insert req.worker_id req.worker_id (beat reset_at now r.dead_timeout req.state e)
                r.workers,
          ),
          refl,
          refl,
        ))

  -- The registry once the timer of that heartbeat has fired and its goroutine has run markDead.
  abbrev after_deadline : (reset_at now fired_at checked_at marked_at : ℕ) → Registry
  after_deadline reset_at now fired_at checked_at marked_at =
      mark_dead checked_at marked_at req.worker_id
        (fire_timer fired_at req.worker_id (heartbeat reset_at now req r).0).0

  abbrev silent_entry : (now : ℕ) → WorkerEntry
  silent_entry now = record e { deadline_timer = idle; last_heartbeat = now; state = req.state }

  deadline_outcome :
      (reset_at now fired_at checked_at marked_at : ℕ)
      → reset_at + r.dead_timeout ≤ fired_at
      → same_state req.state dead ≡ false
      → lookup req.worker_id (after_deadline reset_at now fired_at checked_at marked_at).workers ≡ (
          if ltb checked_at (now + r.dead_timeout)
          then some (silent_entry now)
          else some (buried marked_at (silent_entry now)))
  deadline_outcome reset_at now fired_at checked_at marked_at due alive =
      let (found, _, timeout) = heartbeat_accepted reset_at now in
      let r1 = (heartbeat reset_at now req r).0 in
      let e1 = beat reset_at now r.dead_timeout req.state e in
      let found1 = fire_timer_found req.worker_id r1 e1 found fired_at (ground arith) in
      let timeout1 = fire_timer_timeout req.worker_id r1 e1 found fired_at in
      ground (
        arith,
        mark_dead_exact req.worker_id (fire_timer fired_at req.worker_id r1).0 (silent_entry now)
            found1 checked_at marked_at,
        timeout,
        timeout1,
      )

  -- After an accepted heartbeat with a state other than DEAD, if the deadline timer fires when it
  -- is due and markDead reads the clock at least the timeout after the time that the heartbeat
  -- recorded, the worker is marked DEAD and nothing else of its entry changes.
  pub silent_worker_dies :
      (reset_at now fired_at checked_at marked_at : ℕ)
      → reset_at + r.dead_timeout ≤ fired_at
      → now + r.dead_timeout ≤ checked_at
      → same_state req.state dead ≡ false
      → lookup req.worker_id (after_deadline reset_at now fired_at checked_at marked_at).workers
        ≡ some (buried marked_at (silent_entry now))
  silent_worker_dies reset_at now fired_at checked_at marked_at due late alive =
      ground (arith, deadline_outcome reset_at now fired_at checked_at marked_at due alive)

  -- After an accepted heartbeat with a state other than DEAD, if the deadline timer fires when it
  -- is due and markDead reads the clock at or after the time that the heartbeat recorded, but less
  -- than the timeout after it, the worker keeps its state, and its timer is not due at any later
  -- time.
  pub early_deadline_never_dies :
      (reset_at now fired_at checked_at marked_at later : ℕ)
      → reset_at + r.dead_timeout ≤ fired_at
      → now ≤ checked_at
      → checked_at < now + r.dead_timeout
      → same_state req.state dead ≡ false
      → let r' = after_deadline reset_at now fired_at checked_at marked_at in
        (lookup req.worker_id r'.workers ≡ some (silent_entry now))
        × (fire_timer later req.worker_id r' ≡ (r', false))
  early_deadline_never_dies reset_at now fired_at checked_at marked_at later due past early alive =
      let found : lookup req.worker_id
            (after_deadline reset_at now fired_at checked_at marked_at).workers
          ≡ some (silent_entry now) =
        ground (arith, deadline_outcome reset_at now fired_at checked_at marked_at due alive) in
      (
        found,
        fire_timer_not_due req.worker_id (after_deadline reset_at now fired_at checked_at marked_at)
            (silent_entry now) found later refl,
      )
