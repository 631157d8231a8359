-- ===== src/Router/Examples.antt =====
-- Concrete runs of the router of router.go.
use llm_inference_control_pl.Common.{
  ℕ, zero, suc, ◌≡◌, refl, true, All, List, [], ◌∷◌, Option, none, some, String, Assoc, ℤ, pos,
}
use llm_inference_control_pl.Common.{lookup, insert}
use llm_inference_control_pl.Common.Float.{
  Float64, float_lt, float_eq, is_nan, one_bits, two_and_half_bits, nan_bits,
}
use llm_inference_control_pl.Common.Http.{HttpRequest}
use llm_inference_control_pl.Registry.{ready, WorkerEntry, Registry, new_entry}
use llm_inference_control_pl.Registry.Queries.{healthy_workers_for_model}
use llm_inference_control_pl.Router.{
  new, pick_worker, get_in_flight, inc, dec, min_flight, min_cost,
}
use llm_inference_control_pl.Router.Choice.{IsBest, pick_worker-IsBest}
use llm_inference_control_pl.Router.Handler.{
  Upstream, proxy, unreachable, answers, World, attempt_loop, try_candidates, try_chosen,
  serve_http, handle_inference,
}
use llm_inference_control_pl.Router.Retry.{Concludes, attempt_loop-Concludes}
use llm_inference_control_pl.Router.Balance.{IsBalanced, serve_http-SameCounts}
use llm_inference_control_pl.Router.Healthy.{IsRouted, serve_http-IsRouted}
use llm_inference_control_pl.Registry.Examples.{ready_registry, ready-Inv}
use llm_inference_control_pl.Router.Unsteady.{pick_worker_race_panics}
use llm_inference_control_pl.Router.Unpriced.{pick_worker_nan_panics}

abbrev worker : String → Float64 → WorkerEntry
worker id cost =
    record (new_entry
      (record {
        worker_id = id;
        address = id;
        gpu_type = "A100";
        vram_bytes = 80;
        models_loaded = "m" ∷ [];
        backend = "vllm";
        provider = "p";
        hardware = "h";
        cost_per_hour = cost;
      })
      0 15) { state = ready }

abbrev fleet : List WorkerEntry
fleet = worker "a" two_and_half_bits ∷ worker "b" one_bits ∷ worker "c" one_bits ∷ []

-- Worker "c" is busy.
abbrev flight : String → ℤ
flight id = if_busy (lookup id (("c", pos 2) ∷ []))
  where
    if_busy : Option ℤ → ℤ
    if_busy none = pos 0
    if_busy (some n) = n

pick_worker-IsBest_example :
    (best : WorkerEntry) × ((pick_worker flight flight 7 fleet).1 ≡ some best)
    × IsBest flight fleet best
unfolding is_nan
pick_worker-IsBest_example =
    pick_worker-IsBest flight 7 (worker "a" two_and_half_bits)
      (worker "b" one_bits ∷ worker "c" one_bits ∷ []) (refl, (refl, (refl, tt)))

-- The first worker that is asked cannot be reached, the second one answers.
abbrev world : World
world = record {
  decode = λ body. some "m";
  upstream = reply;
  before = λ n r. r;
  during = λ n r. r;
  at_first = λ n id r. r;
  at_second = λ n id r. r;
}
  where
    reply : ℕ → String → Assoc String → List ℕ → Upstream
    reply (suc zero) target headers body = unreachable
    reply n target headers body = answers 200 "application/json" (123 ∷ 125 ∷ []) true

abbrev post : HttpRequest
post = record { method = "POST"; path = "/v1/completions"; headers = []; body = some (1 ∷ 2 ∷ []) }

attempt_loop-Concludes_example :
    Concludes 3 (attempt_loop world post "m" (1 ∷ 2 ∷ []) fleet 3 1 [] (new true))
unfolding is_nan
attempt_loop-Concludes_example =
    attempt_loop-Concludes world (λ n r id. refl) post "m" (1 ∷ 2 ∷ []) fleet (new true)
      ((refl, (refl, tt)), ((refl, tt), (tt, tt))) (refl, (refl, (refl, tt)))

-- "b" and "c" have the least cost, and the counter picks "c" first; then "b" is cheaper than "a".
attempt_loop_relays :
    (attempt_loop world post "m" (1 ∷ 2 ∷ []) fleet 3 1 [] (new true)).log
    ≡ ("b", answers 200 "application/json" (123 ∷ 125 ∷ []) true) ∷ ("c", unreachable) ∷ []
unfolding attempt_loop try_candidates try_chosen new pick_worker get_in_flight min_flight min_cost
    float_lt float_eq proxy inc dec lookup insert
attempt_loop_relays = refl

world-IsBalanced : IsBalanced world
world-IsBalanced = record { before_same = λ n r id. refl; during_same = λ n r id. refl }

abbrev registry : Registry
registry = record {
  workers = ("a", worker "a" two_and_half_bits) ∷ ("b", worker "b" one_bits) ∷ [];
  dead_timeout = 15;
}

serve_http-SameCounts_example :
    get_in_flight (serve_http world post registry (new true)).router.in_flight "b"
    ≡ get_in_flight (new true).in_flight "b"
serve_http-SameCounts_example =
    serve_http-SameCounts world world-IsBalanced post (new true) registry "b"

serve_http-IsRouted_example :
    All (IsRouted world post ready_registry) (serve_http world post ready_registry (new true)).log
serve_http-IsRouted_example = serve_http-IsRouted world post ready_registry ready-Inv (new true)

-- The worker is asked: its log is not empty.
asked_once : (serve_http world post ready_registry (new true)).log ≡ ("a", unreachable) ∷ []
unfolding serve_http handle_inference attempt_loop try_candidates try_chosen new pick_worker
    get_in_flight proxy inc dec lookup insert healthy_workers_for_model
asked_once = refl

-- Both workers are idle, and the first one sent NaN as its cost.
pick_worker_nan_panics_example :
    (pick_worker (λ id. pos 0) (λ id. pos 0) 7 (worker "a" nan_bits ∷ worker "b" one_bits ∷ [])).1
    ≡ none
unfolding is_nan
pick_worker_nan_panics_example =
    pick_worker_nan_panics (λ id. pos 0) 7 (worker "a" nan_bits) (worker "b" one_bits) [] (refl, tt)
      refl

-- Two idle workers, and two requests that start between the loops.
pick_worker_race_panics_example :
    (pick_worker (λ id. pos 0) (λ id. pos 1) 7 (worker "a" one_bits ∷ worker "b" one_bits ∷ [])).1
    ≡ none
pick_worker_race_panics_example =
    pick_worker_race_panics (λ id. pos 0) (λ id. pos 1) 7 (worker "a" one_bits)
      (worker "b" one_bits) [] (refl, (refl, tt))
