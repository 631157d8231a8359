-- ===== src/Dispatcher/Pool/Jammed.antt =====
-- The pool of dispatcher.go when the gateway has given up on streams.
use llm_inference_control_pl.Common.{◌≡◌}
use llm_inference_control_pl.Dispatcher.{Dispatcher}
use llm_inference_control_pl.Dispatcher.Pool.{Worker, jammed, Pool, Step}

-- Steps from a pool on.
pub data Later (d : Dispatcher) (p : Pool) : Pool → Type 0 where
  now : Later d p p
  then : {p' p'' : Pool} → Later d p p' → Step d p' p'' → Later d p p''

abbrev pub IsJammed : Worker → Type 0
IsJammed (jammed r) = Unit {0}
IsJammed _ = ⊥

-- Nothing of the pool but its queue has changed.
abbrev Stalled : Pool → Pool → Type 0
Stalled p p' = (p'.workers ≡ p.workers) × (p'.sent ≡ p.sent)
