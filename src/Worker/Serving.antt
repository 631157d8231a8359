-- ===== src/Worker/Serving.antt =====
-- Which events leave a worker in its heartbeat loop.
use llm_inference_control_pl.Common.{ℕ, ◌≡◌, refl, sym, ◌∙◌, inl, inr, arith, Bool-cases}
use llm_inference_control_pl.Registry.{HeartbeatResponse, Result, ok, err}
use llm_inference_control_pl.Worker.{
  Node, System, Event, ticks, lasts, load_ticks, loads, interrupts, drain_seen, leaves, others,
  step_system, Beater, beating, last_beat, returned, Main, waiting, leaving, exited, tick,
  last_tick, interrupt, see_drain, leave, step_alive, step_others, alive, answered,
}

-- The worker is in its heartbeat loop and main in its `select`.
pub record IsServing (s : System) : Type 0 where
  pub loops : s.node.beater ≡ beating
  pub waits : s.node.main ≡ waiting

pub not_beating : returned ≡ beating → ⊥
not_beating e = cc

not_waiting : (leaving ≡ waiting → ⊥) × (exited ≡ waiting → ⊥)
not_waiting = ((λ e. cc), λ e. cc)

-- What an event leaves serving was serving before.
answered-main : (n : Node) (o : Result HeartbeatResponse) → (answered n o).main ≡ n.main
answered-main n (err e) = refl
answered-main n (ok resp) = ground arith

tick-serves :
    (b : Beater) (s : System) (reset_at now : ℕ)
    → s.node.beater ≡ b
    → IsServing (tick b reset_at now s)
    → IsServing s
tick-serves beating s reset_at now e h = record {
  loops = e;
  waits = sym (answered-main s.node _) ∙ h.waits;
}
tick-serves last_beat s reset_at now e h = h
tick-serves returned s reset_at now e h = h

last_tick-serves :
    (b : Beater) (s : System) (reset_at now : ℕ)
    → IsServing (last_tick b reset_at now s)
    → IsServing s
last_tick-serves beating s reset_at now h = h
last_tick-serves last_beat s reset_at now h = absurd (not_beating h.loops)
last_tick-serves returned s reset_at now h = h

main-serves :
    (m : Main) (b : Beater) (s : System)
    → (IsServing (interrupt m s) → IsServing s)
      × (IsServing (see_drain m b s) → IsServing s)
      × (IsServing (leave m s) → IsServing s)
main-serves waiting beating s = ((λ h. absurd (not_waiting.0 h.waits)), (λ h. h), λ h. h)
main-serves waiting last_beat s = ((λ h. absurd (not_waiting.0 h.waits)), (λ h. h), λ h. h)
main-serves waiting returned s =
    ((λ h. absurd (not_waiting.0 h.waits)), (λ h. absurd (not_waiting.0 h.waits)), λ h. h)
main-serves leaving b s = ((λ h. h), (λ h. h), λ h. absurd (not_waiting.1 h.waits))
main-serves exited b s = ((λ h. h), (λ h. h), λ h. h)

pub step-serves : (s : System) (e : Event) → IsServing (step_system s e) → IsServing s
unfolding step_system
step-serves s e h = elim (Bool-cases (alive s.node.main)) [
  | inl t ↦ alive-serves s e (rw t at h)
  | inr t ↦ others-serves s e (rw t at h)
]
  where
    alive-serves : (s : System) (e : Event) → IsServing (step_alive s e) → IsServing s
    alive-serves s (ticks reset_at now) h = tick-serves s.node.beater s reset_at now refl h
    alive-serves s (lasts reset_at now) h = last_tick-serves s.node.beater s reset_at now h
    alive-serves s (load_ticks load) h = record { loops = h.loops; waits = h.waits }
    alive-serves s loads h = record { loops = h.loops; waits = h.waits }
    alive-serves s interrupts h = (main-serves s.node.main s.node.beater s).0 h
    alive-serves s drain_seen h = (main-serves s.node.main s.node.beater s).1 h
    alive-serves s leaves h = (main-serves s.node.main s.node.beater s).2 h
    alive-serves s (others c) h = record { loops = h.loops; waits = h.waits }

    others-serves : (s : System) (e : Event) → IsServing (step_others s e) → IsServing s
    others-serves s (others c) h = record { loops = h.loops; waits = h.waits }
    others-serves s (ticks reset_at now) h = h
    others-serves s (lasts reset_at now) h = h
    others-serves s (load_ticks load) h = h
    others-serves s loads h = h
    others-serves s interrupts h = h
    others-serves s drain_seen h = h
    others-serves s leaves h = h

pub last_beat_stops : last_beat ≡ beating → ⊥
last_beat_stops e = cc

pub last_tick_idle :
    (b : Beater) (s : System) (reset_at now : ℕ) → b ≡ beating → last_tick b reset_at now s ≡ s
last_tick_idle beating s reset_at now e = refl
last_tick_idle last_beat s reset_at now e = absurd (last_beat_stops e)
last_tick_idle returned s reset_at now e = refl

pub see_drain_idle : (m : Main) (b : Beater) (s : System) → b ≡ beating → see_drain m b s ≡ s
see_drain_idle waiting beating s e = refl
see_drain_idle waiting last_beat s e = refl
see_drain_idle waiting returned s e = absurd (not_beating e)
see_drain_idle leaving b s e = refl
see_drain_idle exited b s e = refl

pub leave_idle : (m : Main) (s : System) → m ≡ waiting → leave m s ≡ s
leave_idle waiting s e = refl
leave_idle leaving s e = absurd (not_waiting.0 e)
leave_idle exited s e = refl

pub interrupt_stops : (m : Main) (s : System) → m ≡ waiting → IsServing (interrupt m s) → ⊥
interrupt_stops waiting s e h = not_waiting.0 h.waits
interrupt_stops leaving s e h = not_waiting.0 e
interrupt_stops exited s e h = not_waiting.1 e
