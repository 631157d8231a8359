-- ===== src/Overview/Routes.antt =====
-- control-plane/api/admin.go: the routes of NewAdminHandler and what their handlers answer.
use llm_inference_control_pl.Common.{
  ℕ, ◌||◌, List, [], ◌∷◌, Option, none, some, String, str_eq, if◌then◌else◌,
}
use llm_inference_control_pl.Common.Text.{split, is_empty}
use llm_inference_control_pl.Common.Float.{Float64}
use llm_inference_control_pl.Common.Http.{status_ok, status_not_found, status_method_not_allowed}
use llm_inference_control_pl.Registry.{WorkerEntry, Registry, Error, Result, ok, err}
use llm_inference_control_pl.Registry.Operations.{request_drain}
use llm_inference_control_pl.Registry.Queries.{get_worker}
use llm_inference_control_pl.Router.{Router, in_flight_snapshot, get_in_flight}
use llm_inference_control_pl.Overview.{StatsResp, stats}
use llm_inference_control_pl.Overview.Fleet.{
  WorkerResp, ModelResp, to_worker_resp, list_worker_rows, list_model_rows,
}

-- What a handler writes.
pub data Page : Type 0 where
  workers_page : List WorkerResp → Page
  worker_page : WorkerResp → Page
  drain_page : String → Page
  stats_page : StatsResp → Page
  models_page : List ModelResp → Page
  metrics_page no_page worker_not_found : Page
  error_page : Error → Page

abbrev pub worker_answer : String → Router → Option WorkerEntry → ℕ × Page
worker_answer id rtr none = (status_not_found, worker_not_found)
worker_answer id rtr (some e) =
    (status_ok, worker_page (to_worker_resp e (get_in_flight (in_flight_snapshot rtr) id)))

abbrev pub drain_answer : String → Result (Unit {0}) → ℕ × Page
drain_answer id (err e) = (status_not_found, error_page e)
drain_answer id (ok _) = (status_ok, drain_page id)

-- The patterns of NewAdminHandler.
pub data Target : Type 0 where
  to_workers to_stats to_models to_metrics : Target
  to_worker to_drain : String → Target

abbrev under_admin : List String → Option Target
under_admin (a ∷ []) =
    if str_eq a "workers"
    then some to_workers
    else if str_eq a "stats"
    then some to_stats
    else if str_eq a "models"
    then some to_models
    else none
under_admin (a ∷ id ∷ []) =
    if str_eq a "workers" then (if is_empty id then none else some (to_worker id)) else none
under_admin (a ∷ id ∷ d ∷ []) =
    if str_eq a "workers"
    then (if str_eq d "drain" then (if is_empty id then none else some (to_drain id)) else none)
    else none
under_admin _ = none

abbrev target_at : List String → Option Target
target_at (start ∷ first ∷ rest) =
    if str_eq first "admin"
    then under_admin rest
    else if str_eq first "metrics"
    then no_more rest
    else none
  where
    no_more : List String → Option Target
    no_more [] = some to_metrics
    no_more (_ ∷ _) = none
target_at _ = none

-- The path's target, split at "/"; a path that the mux would redirect to its clean form is not modelled.
unfoldable pub target_of : String → Option Target
target_of path = target_at (split "/" path)

-- The handlers for GET, which also serve HEAD.
abbrev pub get_page : (Float64 → Float64 → Float64) → Registry → Router → Target → ℕ × Page
get_page add r rtr to_workers = (status_ok, workers_page (list_worker_rows r rtr))
get_page add r rtr to_stats = (status_ok, stats_page (stats add r rtr))
get_page add r rtr to_models = (status_ok, models_page (list_model_rows r rtr))
get_page add r rtr to_metrics = (status_ok, metrics_page)
get_page add r rtr (to_worker id) = worker_answer id rtr (get_worker id r)
get_page add r rtr (to_drain id) = (status_method_not_allowed, no_page)

-- drainWorker
unfoldable pub drain_worker : String → Registry → Registry × (ℕ × Page)
drain_worker id r = let asked = request_drain id r in (asked.0, drain_answer id asked.1)

abbrev post_page : Registry → Target → Registry × (ℕ × Page)
post_page r (to_drain id) = drain_worker id r
post_page r _ = (r, (status_method_not_allowed, no_page))

abbrev answer_at :
    (Float64 → Float64 → Float64)
    → String
    → Registry
    → Router
    → Option Target
    → Registry × (ℕ × Page)
answer_at add method r rtr none = (r, (status_not_found, no_page))
answer_at add method r rtr (some t) =
    let read : Registry × (ℕ × Page) = (r, get_page add r rtr t) in
    let written = post_page r t in
    if str_eq method "GET" || str_eq method "HEAD"
    then read
    else if str_eq method "POST"
    then written
    else (r, (status_method_not_allowed, no_page))

-- NewAdminHandler
unfoldable pub serve_admin :
    (Float64 → Float64 → Float64)
    → (method path : String) → Registry
    → Router
    → Registry × (ℕ × Page)
serve_admin add method path r rtr = answer_at add method r rtr (target_of path)
