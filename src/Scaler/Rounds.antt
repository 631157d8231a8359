-- ===== src/Scaler/Rounds.antt =====
-- Run of scaler.go: a first sweep at once, then one for each tick until the context ends.
use llm_inference_control_pl.Common.{List, [], ◌∷◌, ◌++◌}
use llm_inference_control_pl.Registry.{Registry}
use llm_inference_control_pl.Scaler.{Scaler, Fleet, World, Warning, sweep}

-- A tick: what other calls did to the registry since the last sweep, and the world of its sweep.
pub record Tick : Type 0 where
  pub since : Registry → Registry
  pub world : World

abbrev pub sweep_again : Scaler → Tick → Fleet × List Warning → Fleet × List Warning
sweep_again s t (f, warnings) =
    let next = sweep t.world s (t.since f.registry) in
    (record (next.0) { evicted = next.0.evicted ++ f.evicted }, warnings ++ next.1)

-- The loop of Run.
unfoldable pub sweep_ticks : Scaler → List Tick → Fleet × List Warning → Fleet × List Warning
sweep_ticks s [] done = done
sweep_ticks s (t ∷ ts) done = sweep_ticks s ts (sweep_again s t done)

-- Run
unfoldable pub run_scaler : World → Scaler → List Tick → Registry → Fleet × List Warning
run_scaler w s ticks r = sweep_ticks s ticks (sweep w s r)
