-- ===== src/Overview/Examples.antt =====
-- Concrete figures of the control plane's reports.
use llm_inference_control_pl.Common.{◌+◌, ◌≡◌, false, [], ◌∷◌, pos, All, some, none, refl}
use llm_inference_control_pl.Registry.Queries.{worker_count}
use llm_inference_control_pl.Registry.Examples.{ready_registry, ready-Inv}
use llm_inference_control_pl.Router.{Router, get_in_flight}
use llm_inference_control_pl.Overview.{stats, gauges}
use llm_inference_control_pl.Common.Text.{split}
use llm_inference_control_pl.Registry.Queries.{list_workers}
use llm_inference_control_pl.Overview.Fleet.{list_model_rows}
use llm_inference_control_pl.Overview.Loads.{total_of, serving, list_model_rows-total}
use llm_inference_control_pl.Overview.Routes.{target_of, to_drain, to_metrics}
use llm_inference_control_pl.Overview.Agreement.{stats-gauges}

abbrev router : Router
router = record { counter = 0; in_flight = ("a", pos 2) ∷ []; hook_set = false; hooked = [] }

stats-gauges_example :
    ((stats (λ x y. x) ready_registry router).total
      ≡ (stats (λ x y. x) ready_registry router).healthy
        + (stats (λ x y. x) ready_registry router).starting_count
        + (stats (λ x y. x) ready_registry router).draining_count
        + (stats (λ x y. x) ready_registry router).dead_count)
    × (worker_count ready_registry ≡ (
      (stats (λ x y. x) ready_registry router).total,
      (stats (λ x y. x) ready_registry router).healthy,
    ))
    × ((gauges ready_registry).ready_gauge + (gauges ready_registry).busy_gauge
        ≡ (stats (λ x y. x) ready_registry router).healthy)
    × ((gauges ready_registry).starting_gauge
        ≡ (stats (λ x y. x) ready_registry router).starting_count)
    × ((gauges ready_registry).draining_gauge
        ≡ (stats (λ x y. x) ready_registry router).draining_count)
    × ((gauges ready_registry).dead_gauge ≡ (stats (λ x y. x) ready_registry router).dead_count)
stats-gauges_example = stats-gauges (λ x y. x) ready_registry router ready-Inv

list_model_rows-total_example :
    All
      (λ row.
        row.total_in_flight
        ≡ total_of
            (get_in_flight router.in_flight)
            (serving row.model (list_workers ready_registry)))
      (list_model_rows ready_registry router)
list_model_rows-total_example = list_model_rows-total ready_registry router

-- A path is read up to its last segment.
targets :
    (target_of "/admin/workers/a/drain" ≡ some (to_drain "a"))
    × (target_of "/metrics" ≡ some to_metrics)
    × (target_of "/admin/workers/" ≡ none)
unfolding target_of split
targets = (refl, refl, refl)
