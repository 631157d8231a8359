-- ===== src/Router/Handler.antt =====
-- ServeHTTP, handleInference and proxy of router.go. Decoding the body and the upstream workers are
-- parameters; between two attempts other requests may have changed the router's state in any way.
use llm_inference_control_pl.Common.{
  ℕ, zero, suc, ◌+◌, Bool, true, false, not, List, [], ◌∷◌, Option, none, some, String, str_eq, ℤ,
  Assoc, insert, select, exists_in, length, if◌then◌else◌, min, ◌||◌,
}
use llm_inference_control_pl.Common.Http.{
  HttpRequest, Payload, bytes, text, format, Response, get_header, http_error, status_ok,
  status_bad_request, status_not_found, status_method_not_allowed, status_bad_gateway,
  status_service_unavailable,
}
use llm_inference_control_pl.Registry.{WorkerEntry, Registry}
use llm_inference_control_pl.Registry.Queries.{healthy_workers_for_model}
use llm_inference_control_pl.Router.{Router, pick_worker, get_in_flight, inc, dec, id_of}
use Prim.Native.String.{◌++◌ as str_append}

-- How a worker answers a forwarded request. `copied` is false if the stream breaks after the part in
-- `body`.
pub data Upstream : Type 0 where
  -- the request cannot be built or the worker cannot be reached
  unreachable : Upstream
  answers : (status : ℕ) (content_type : String) (body : List ℕ) (copied : Bool) → Upstream

-- What `proxy` returns, and what it wrote.
pub record Proxied : Type 0 where
  pub retryable : Bool
  pub failed : Bool
  pub written : Option Response

-- proxy, after the request was sent
unfoldable pub proxy : Upstream → Proxied
proxy unreachable = record { retryable = true; failed = true; written = none }
proxy (answers status content_type body copied) = record {
  retryable = false;
  failed = not copied;
  written = some (record {
    status = status;
    headers = insert "Content-Type" content_type [];
    payload = bytes body;
  });
}

-- The loop of `proxy` that copies three headers, then the content type.
abbrev copy_header : String → Assoc String → Assoc String → Assoc String
copy_header k from to =
    if str_eq (get_header k from) "" then to else insert k (get_header k from) to

unfoldable pub proxy_headers : Assoc String → Assoc String
proxy_headers from = insert "Content-Type" "application/json" (
    copy_header "Authorization" from
      (copy_header "Accept" from (copy_header "Content-Type" from [])))

-- Decoding the body gives the model, "" if there is none; the upstream answers the n-th attempt; and
-- `before` and `during` are the changes of other requests ahead of an attempt and during one. In the
-- choice of the n-th attempt, others have changed the counters by `at_first` before the count of a
-- worker is read for the minimum, and by `at_second` before it is compared with it.
pub record World : Type 0 where
  pub decode : List ℕ → Option String
  pub upstream : ℕ → String → Assoc String → List ℕ → Upstream
  pub before : ℕ → Router → Router
  pub during : ℕ → Router → Router
  pub at_first : ℕ → String → Router → Router
  pub at_second : ℕ → String → Router → Router

-- What the two loops of pickWorker read.
abbrev pub first_counts : World → ℕ → Router → String → ℤ
first_counts w n r id = get_in_flight (w.at_first n id r).in_flight id

abbrev pub second_counts : World → ℕ → Router → String → ℤ
second_counts w n r id = get_in_flight (w.at_second n id r).in_flight id

-- What one request did: no response is a panic of the handler. `log` holds the workers that were
-- tried, with their answers, latest first.
pub record Served : Type 0 where
  pub router : Router
  pub response : Option Response
  pub log : List (String × Upstream)

abbrev pub tried : String → List (String × Upstream) → Bool
tried id log = exists_in (λ a. str_eq a.0 id) log

-- if r.onRequest != nil { r.onRequest(model, result) }
abbrev pub notify : String → String → Router → Router
notify model result r = if r.hook_set then record r { hooked = (model, result) ∷ r.hooked } else r

abbrev pub finished : Router → Option Response → List (String × Upstream) → Served
finished r response log = record { router = r; response = response; log = log }

abbrev pub all_failed : Response
all_failed = http_error [] (text "all workers failed or unavailable") status_bad_gateway

-- After the loop.
abbrev pub give_up : String → List (String × Upstream) → Router → Served
give_up model log r = finished (notify model "error" r) (some all_failed) log

abbrev pub settle :
    String
    → Proxied
    → List (String × Upstream)
    → Router
    → (List (String × Upstream) → Router → Served)
    → Served
settle model p log r next =
    if p.failed
    then (if p.retryable then next log r else finished (notify model "error" r) p.written log)
    else finished (notify model "success" r) p.written log

-- What the chosen worker answers: the target is its address with the request's path.
abbrev pub ask : World → HttpRequest → List ℕ → ℕ → WorkerEntry → Upstream
ask w req body n chosen =
    w.upstream n (str_append "http://" (str_append chosen.info.address req.path))
      (proxy_headers req.headers) body

-- The rest of an attempt, with the worker that was chosen; `next` is the next round of the loop.
unfoldable pub try_chosen :
    World
    → HttpRequest
    → String
    → List ℕ
    → ℕ
    → List (String × Upstream)
    → Router
    → (List (String × Upstream) → Router → Served)
    → Option WorkerEntry
    → Served
try_chosen w req model body n log r next none = finished r none log
try_chosen w req model body n log r next (some chosen) =
    let answer = ask w req body n chosen in
    settle model (proxy answer) ((id_of chosen, answer) ∷ log)
      (dec (id_of chosen) (w.during n (inc (id_of chosen) r))) next

-- One round of the loop: the workers not yet tried, `break` if there are none, the choice.
unfoldable pub try_candidates :
    World
    → HttpRequest
    → String
    → List ℕ
    → ℕ
    → List (String × Upstream)
    → Router
    → (List (String × Upstream) → Router → Served)
    → List WorkerEntry
    → Served
unfolding try_chosen
try_candidates w req model body n log r next [] = give_up model log r
try_candidates w req model body n log r next (c ∷ cs) =
    let picked = pick_worker (first_counts w n r) (second_counts w n r) r.counter (c ∷ cs) in
    try_chosen w req model body n log (record r { counter = picked.0 }) next picked.1

abbrev pub untried : List (String × Upstream) → List WorkerEntry → List WorkerEntry
untried log = select (λ w. not (tried (id_of w) log))

-- for attempt := n; …, with the number of rounds that are left.
unfoldable pub attempt_loop :
    World
    → HttpRequest
    → String
    → List ℕ
    → List WorkerEntry
    → ℕ
    → ℕ
    → List (String × Upstream)
    → Router
    → Served
unfolding try_candidates
attempt_loop w req model body workers zero n log r = give_up model log r
attempt_loop w req model body workers (suc left) n log r =
    try_candidates w req model body n log (w.before n r)
      (attempt_loop w req model body workers left (n + 1)) (untried log workers)

abbrev pub refused : Router → Payload → ℕ → Served
refused r message code = finished r (some (http_error [] message code)) []

abbrev pub route_model : World → HttpRequest → List ℕ → String → List WorkerEntry → Router → Served
route_model w req body model [] r =
    refused r (format "no healthy workers available for model %q" (model ∷ []))
      status_service_unavailable
route_model w req body model (e ∷ es) r =
    attempt_loop w req model body (e ∷ es) (min (length (e ∷ es)) 3) 1 [] r

abbrev pub route_decoded : World → HttpRequest → List ℕ → Option String → Registry → Router → Served
route_decoded w req body none reg r =
    refused r (text "request body must contain a valid 'model' field") status_bad_request
route_decoded w req body (some model) reg r =
    if str_eq model ""
    then refused r (text "request body must contain a valid 'model' field") status_bad_request
    else route_model w req body model (healthy_workers_for_model model reg) r

abbrev pub route_body : World → HttpRequest → Option (List ℕ) → Registry → Router → Served
route_body w req none reg r = refused r (text "failed to read request body") status_bad_request
route_body w req (some body) reg r = route_decoded w req body (w.decode body) reg r

-- handleInference
unfoldable pub handle_inference : World → HttpRequest → Registry → Router → Served
handle_inference w req reg r =
    if str_eq req.method "POST"
    then route_body w req req.body reg r
    else refused r (text "method not allowed") status_method_not_allowed

-- ServeHTTP
unfoldable pub serve_http : World → HttpRequest → Registry → Router → Served
serve_http w req reg r =
    if str_eq req.path "/v1/chat/completions" || str_eq req.path "/v1/completions"
    then handle_inference w req reg r
    else if str_eq req.path "/healthz"
    then finished r (some (record { status = status_ok; headers = []; payload = text "ok" })) []
    else refused r (text "not found") status_not_found
