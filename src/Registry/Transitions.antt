-- ===== src/Registry/Transitions.antt =====
-- validTransition of registry.go against the diagram in its comment.
use llm_inference_control_pl.Common.{◌≡◌, refl, subst, ◌⊎◌, inl, inr, ◌↔◌, true, arith}
use llm_inference_control_pl.Registry.{
  WorkerState, starting, ready, busy, draining, valid_transition,
}

-- The arrows that a worker may report.
infix 40 ◌⟶◌
pub data ◌⟶◌ : WorkerState → WorkerState → Type 0 where
  loaded : starting ⟶ ready
  request_in : ready ⟶ busy
  request_done : busy ⟶ ready
  drain_idle : ready ⟶ draining
  drain_busy : busy ⟶ draining

transition_sound :
    (from to : WorkerState) → valid_transition from to ≡ true → (from ≡ to) ⊎ (from ⟶ to)
unfolding valid_transition
transition_sound from to h = grind (arith, loaded, request_in, request_done, drain_idle, drain_busy)

arrow_allowed : {from to : WorkerState} → from ⟶ to → valid_transition from to ≡ true
unfolding valid_transition
arrow_allowed loaded = refl
arrow_allowed request_in = refl
arrow_allowed request_done = refl
arrow_allowed drain_idle = refl
arrow_allowed drain_busy = refl

stay_allowed : (s : WorkerState) → valid_transition s s ≡ true
unfolding valid_transition
stay_allowed s = ground arith

-- validTransition accepts exactly the arrows of the state diagram and the repetition of a state.
pub valid_transition_exact :
    (from to : WorkerState) → (valid_transition from to ≡ true) ↔ ((from ≡ to) ⊎ (from ⟶ to))
valid_transition_exact from to = (transition_sound from to, complete)
  where
    complete : (from ≡ to) ⊎ (from ⟶ to) → valid_transition from to ≡ true
    complete (inl e) = subst (λ s. valid_transition from s ≡ true) e (stay_allowed from)
    complete (inr a) = arrow_allowed a
