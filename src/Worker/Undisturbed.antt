-- ===== src/Worker/Undisturbed.antt =====
-- A worker that nobody but its own process reports for, and that no deadline buries.
use llm_inference_control_pl.Common.{
  ℕ, ◌≡◌, refl, sym, ap, subst, ◌∙◌, inl, inr, Bool, true, false, String, eq_refl, insert,
  lookup-insert, arith, Bool-cases,
}
use llm_inference_control_pl.Registry.{
  WorkerState, starting, ready, valid_transition, beat, HeartbeatResponse, Result, ok, Registry,
  heartbeat,
}
use llm_inference_control_pl.Registry.Invariant.{Inv}
use llm_inference_control_pl.Registry.Bystanders.{spares, Stands, spared_step}
use llm_inference_control_pl.Worker.{
  Node, System, Event, ticks, lasts, load_ticks, loads, interrupts, drain_seen, leaves, others,
  step_system, Beater, beating, last_beat, returned, report, tick, step_alive, alive, answered,
}
use llm_inference_control_pl.Worker.Serving.{
  IsServing, step-serves, last_beat_stops, last_tick_idle, see_drain_idle, leave_idle,
  interrupt_stops,
}

-- The rest of the fleet spares the worker `id`.
abbrev pub spares_worker : String → Event → Bool
spares_worker id (others c) = spares id c
spares_worker id _ = true

-- STARTING is followed by READY alone.
abbrev pub rises : WorkerState → WorkerState → Bool
rises starting starting = true
rises starting ready = true
rises ready ready = true
rises _ _ = false

rises-valid_transition : (a b : WorkerState) → rises a b ≡ true → valid_transition a b ≡ true
unfolding valid_transition
rises-valid_transition a b h = ground arith

-- While the worker beats, its entry has a state that its next heartbeat may follow, and, if `drain`
-- is set, the drain request.
pub record IsSynced (drain : Bool) (s : System) : Type 0 where
  pub state : WorkerState
  pub stands : Stands s.node.id state drain s.registry
  pub next : rises state s.node.state ≡ true

rises_refl : (a b : WorkerState) → rises a b ≡ true → rises b b ≡ true
rises_refl a b h = ground arith

rises_loaded : (a b : WorkerState) → rises a b ≡ true → rises a ready ≡ true
rises_loaded a b h = ground arith

pub accepted :
    (drain : Bool) (s : System) (reset_at now : ℕ) (h : IsSynced drain s)
    → (heartbeat reset_at now (report s.node) s.registry) ≡ (
      record s.registry {
        workers =
            insert s.node.id
              (beat reset_at now s.registry.dead_timeout s.node.state h.stands.entry)
              s.registry.workers;
      },
      ok (record { alive = true; drain = h.stands.entry.drain_requested }),
    )
unfolding heartbeat
accepted drain s reset_at now h =
    let valid : valid_transition h.stands.entry.state s.node.state ≡ true =
      rises-valid_transition h.stands.entry.state s.node.state (rw h.stands.kept_state h.next) in
    rw (h.stands.found, heartbeat) (rw valid refl)

-- An accepted heartbeat without a drain leaves the worker in step with its entry.
beat-IsSynced :
    (drain : Bool) (s : System) (reset_at now : ℕ) (h : IsSynced drain s)
    → IsSynced drain (record s { registry = (heartbeat reset_at now (report s.node) s.registry).0 })
beat-IsSynced drain s reset_at now h = rw (accepted drain s reset_at now h) (record {
  state = s.node.state;
  stands = record {
    entry = beat reset_at now s.registry.dead_timeout s.node.state h.stands.entry;
    found = rw (lookup-insert, eq_refl s.node.id) refl;
    kept_state = refl;
    asked = h.stands.asked;
  };
  next = rises_refl h.state s.node.state h.next;
})

answered_again :
    (n : Node) (resp : HeartbeatResponse)
    → (answered n (ok resp)).beater ≡ beating
    → answered n (ok resp) ≡ n
answered_again n resp h = elim (Bool-cases resp.drain) [
  | inl t ↦ absurd (last_beat_stops (rw t at h))
  | inr t ↦ rw t refl
]

tick-IsSynced :
    (b : Beater) (drain : Bool) (s : System) (reset_at now : ℕ)
    → IsSynced drain s
    → (tick b reset_at now s).node.beater ≡ beating
    → IsSynced drain (tick b reset_at now s)
tick-IsSynced beating drain s reset_at now h loops =
    let resp : HeartbeatResponse = record {
      alive = true;
      drain = h.stands.entry.drain_requested;
    } in
    let ok_sent : (heartbeat reset_at now (report s.node) s.registry).1 ≡ ok resp =
      ap (λ (o : Registry × Result HeartbeatResponse). o.1) (accepted drain s reset_at now h) in
    let loops' : (answered s.node (ok resp)).beater ≡ beating =
      subst (λ (o : Result HeartbeatResponse). (answered s.node o).beater ≡ beating) ok_sent
        loops in
    let same : answered s.node (heartbeat reset_at now (report s.node) s.registry).1 ≡ s.node =
      ap (answered s.node) ok_sent ∙ answered_again s.node resp loops' in
    rw same (beat-IsSynced drain s reset_at now h)
tick-IsSynced last_beat drain s reset_at now h loops = h
tick-IsSynced returned drain s reset_at now h loops = h

restood :
    (drain : Bool) (s : System) (r : Registry) (h : IsSynced drain s)
    → Stands s.node.id h.state drain r
    → IsSynced drain (record s { registry = r })
restood drain s r h stands = record { state = h.state; stands = stands; next = h.next }

-- An event that the fleet spares the worker, and after which it still serves, keeps it in step.
pub step-IsSynced :
    (drain : Bool) (s : System) (e : Event)
    → Inv s.registry
    → spares_worker s.node.id e ≡ true
    → IsServing (step_system s e)
    → IsSynced drain s
    → IsSynced drain (step_system s e)
unfolding step_system
step-IsSynced drain s e v spared serves h =
    let before = step-serves s e serves in
    let lives : alive s.node.main ≡ true = ap alive before.waits in
    rw lives (synced e spared (rw lives at serves))
  where
    before' : IsServing s
    before' = step-serves s e serves

    synced :
        (e : Event)
        → spares_worker s.node.id e ≡ true
        → IsServing (step_alive s e)
        → IsSynced drain (step_alive s e)
    synced (ticks reset_at now) spared serves =
        tick-IsSynced s.node.beater drain s reset_at now h serves.loops
    synced (lasts reset_at now) spared serves =
        subst (IsSynced drain) (sym (last_tick_idle s.node.beater s reset_at now before'.loops)) h
    synced (load_ticks load) spared serves =
        restood drain s _ h (spared_step s.node.id s.registry h.state drain h.stands _ v.keys refl)
    synced loads spared serves = record {
      state = h.state;
      stands = h.stands;
      next = rises_loaded h.state s.node.state h.next;
    }
    synced interrupts spared serves = absurd (interrupt_stops s.node.main s before'.waits serves)
    synced drain_seen spared serves =
        subst (IsSynced drain) (sym (see_drain_idle s.node.main s.node.beater s before'.loops)) h
    synced leaves spared serves =
        subst (IsSynced drain) (sym (leave_idle s.node.main s before'.waits)) h
    synced (others c) spared serves =
        restood drain s _ h
          (spared_step s.node.id s.registry h.state drain h.stands c v.keys spared)
