-- ===== src/Gateway/Begin.antt =====
-- ServeHTTP and handleInference of gateway.go, up to the `select`. Decoding the body is a parameter.
use llm_inference_control_pl.Common.{
  ℕ, ◌+◌, ◌/◌, ◌%◌, ◌^◌, Bool, false, not, List, [], ◌∷◌, Option, none, some, String, str_eq,
  insert, if◌then◌else◌, ◌||◌,
}
use llm_inference_control_pl.Common.Decimal.{format_int}
use llm_inference_control_pl.Common.Http.{
  HttpRequest, text, format, Response, http_error, status_ok, status_bad_request,
  status_unauthorized, status_not_found, status_method_not_allowed, status_too_many_requests,
  status_service_unavailable,
}
use llm_inference_control_pl.Queue.{Priority, priority_string, Request, try_push, ahead_of}
use llm_inference_control_pl.Auth.{KeyInfo, KeyStore, RateLimiter, lookup_key, allow}
use llm_inference_control_pl.Slo.{FloatOps, LatencyTracker, Estimator, estimate}
use llm_inference_control_pl.Backpressure.{Policy, admit}
use llm_inference_control_pl.Gateway.{Gateway, notify, extract_api_key, parse_priority}

-- What json.Unmarshal gives of the body: the model, "" if there is none, and `stream`.
pub record World : Type 0 where
  pub floats : FloatOps
  pub decode : List ℕ → Option (String × Bool)

-- The client is answered, or the handler waits for the result of the request that it has queued.
pub data Begun : Type 0 where
  answered : Response → Begun
  waiting : Request → (estimated_wait : Option ℕ) → Begun

-- Return after an error; the hook gets the model and that there was no success.
abbrev pub refuse : String → Response → Gateway → Gateway × Begun
refuse model response g = (notify model false g, answered response)

-- The key id of a request that passed, "" without authentication, or the refusal.
pub data Checked : Type 0 where
  passed : (key_id : String) → Checked
  rejected : Response → Checked

abbrev pub limited : Response
limited =
    http_error (insert "Retry-After" "1" []) (text "rate limit exceeded") status_too_many_requests

-- g.rateLimiter != nil && !g.rateLimiter.Allow(info.KeyID, info.RequestsPerMin)
abbrev pub check_rate : ℕ → KeyInfo → Gateway → Option RateLimiter → Gateway × Checked
check_rate now info g none = (g, passed info.key_id)
check_rate now info g (some limiter) =
    let asked = allow info.key_id info.requests_per_min now limiter in
    (
      record g { rate_limiter = some asked.0 },
      (if asked.1 then passed info.key_id else rejected limited),
    )

abbrev pub check_info : ℕ → Gateway → Option KeyInfo → Gateway × Checked
check_info now g none = (g, rejected (http_error [] (text "invalid API key") status_unauthorized))
check_info now g (some info) = check_rate now info g g.rate_limiter

abbrev pub check_key : ℕ → KeyStore → Gateway → Option String → Gateway × Checked
check_key now store g none =
    (g, rejected (http_error [] (text "missing API key") status_unauthorized))
check_key now store g (some key) = check_info now g (lookup_key key store)

abbrev pub check_store : ℕ → HttpRequest → Gateway → Option KeyStore → Gateway × Checked
check_store now req g none = (g, passed "")
check_store now req g (some store) = check_key now store g (extract_api_key req.headers)

-- if g.keyStore != nil { … }
unfoldable pub authenticate : ℕ → HttpRequest → Gateway → Gateway × Checked
authenticate now req g = check_store now req g g.key_store

-- The estimate for a priority, if there is an estimator.
abbrev pub estimate_with : FloatOps → String → ℕ → Option (LatencyTracker × Estimator) → Option ℕ
estimate_with f model ahead none = none
estimate_with f model ahead (some (tracker, estimator)) =
    some (estimate f tracker estimator model ahead)

unfoldable pub estimate_for : FloatOps → String → Priority → Gateway → Option ℕ
estimate_for f model priority g = estimate_with f model (ahead_of g.queue priority) g.slo

-- g.policy != nil && haveEstimate && !g.policy.Admit(priority, estimate)
abbrev pub turns_away : Option Policy → Priority → Option ℕ → Bool
turns_away none priority estimated = false
turns_away (some policy) priority none = false
turns_away (some policy) priority (some wait) = not (admit policy priority wait)

abbrev pub or_zero : Option ℕ → ℕ
or_zero none = 0
or_zero (some n) = n

-- The 503 with the estimate in milliseconds, and in seconds and one more to retry after. The text of
-- the wait is its number of nanoseconds here.
abbrev pub turned_away : Priority → ℕ → Response
turned_away priority wait =
    http_error
      (insert "Retry-After" (format_int (wait / 10 ^ 9 + 1))
        (insert "X-Estimated-Wait-Ms" (format_int (wait / 10 ^ 6)) []))
      (format "request rejected: estimated wait %s exceeds SLO for %s priority"
        (format_int wait ∷ priority_string priority ∷ []))
      status_service_unavailable

-- &queue.Request{…}
abbrev pub make_request : ℕ → String → List ℕ → String → Bool → Priority → Gateway → Request
make_request now key_id body model stream priority g = record {
  id = (g.id_counter + 1) % 2 ^ 64;
  body = body;
  model = model;
  priority = priority;
  enqueued_at = now;
  key_id = key_id;
  stream = stream;
}

-- The id is used up whether the queue takes the request or not.
abbrev pub push : Request → Option ℕ → Gateway → Gateway × Begun
push r estimated g =
    let pushed = try_push g.queue r in
    let g' = record g { id_counter = r.id } in
    if pushed.1
    then (record g' { queue = pushed.0 }, waiting r estimated)
    else refuse r.model
        (http_error [] (text "request queue full, try again later") status_service_unavailable) g'

abbrev pub enqueue :
    ℕ → String → List ℕ → String → Bool → Priority → Option ℕ → Gateway → Gateway × Begun
enqueue now key_id body model stream priority estimated g =
    if turns_away g.policy priority estimated
    then refuse model (turned_away priority (or_zero estimated)) g
    else push (make_request now key_id body model stream priority g) estimated g

abbrev pub bad_body : Response
bad_body = http_error [] (text "request body must contain a valid 'model' field") status_bad_request

abbrev pub begin_decoded :
    World → ℕ → HttpRequest → String → List ℕ → Option (String × Bool) → Gateway → Gateway × Begun
begin_decoded w now req key_id body none g = refuse "" bad_body g
begin_decoded w now req key_id body (some (model, stream)) g =
    if str_eq model ""
    then refuse "" bad_body g
    else let priority = parse_priority req.headers in
      enqueue now key_id body model stream priority (estimate_for w.floats model priority g) g

abbrev pub begin_body :
    World → ℕ → HttpRequest → String → Option (List ℕ) → Gateway → Gateway × Begun
begin_body w now req key_id none g =
    refuse "" (http_error [] (text "failed to read request body") status_bad_request) g
begin_body w now req key_id (some body) g = begin_decoded w now req key_id body (w.decode body) g

abbrev pub begin_checked : World → ℕ → HttpRequest → Gateway × Checked → Gateway × Begun
begin_checked w now req (g, rejected response) = refuse "" response g
begin_checked w now req (g, passed key_id) = begin_body w now req key_id req.body g

-- handleInference. Both readings of the clock are `now`.
unfoldable pub begin_inference : World → ℕ → HttpRequest → Gateway → Gateway × Begun
begin_inference w now req g =
    if str_eq req.method "POST"
    then begin_checked w now req (authenticate now req g)
    else refuse "" (http_error [] (text "method not allowed") status_method_not_allowed) g

-- ServeHTTP: only inference requests reach the hook.
unfoldable pub begin : World → ℕ → HttpRequest → Gateway → Gateway × Begun
begin w now req g =
    if str_eq req.path "/v1/chat/completions" || str_eq req.path "/v1/completions"
    then begin_inference w now req g
    else if str_eq req.path "/healthz"
    then (g, answered (record { status = status_ok; headers = []; payload = text "ok" }))
    else (g, answered (http_error [] (text "not found") status_not_found))
