-- ===== src/Gateway.antt =====
-- request-plane/gateway/gateway.go. A request is served in two steps: `begin` runs ServeHTTP up to the
-- `select`, on the shared state, and either answers or leaves the request in the queue; `finish` is
-- the rest, once a result or the timeout is there. Other requests may run in between. The estimator
-- reads the tracker that WithSLO sets beside it.
pub mod Begin
pub mod Finish
pub mod Admission
pub mod Access
pub mod Estimates
pub mod Reporting
pub mod Sessions
pub mod Keys
mod Examples
use llm_inference_control_pl.Common.{
  ℕ, Bool, true, false, List, ◌∷◌, [], Option, none, some, String, if◌then◌else◌, str_eq, ◌==◌,
  ◌&&◌, leb, Assoc, lookup,
}
use llm_inference_control_pl.Common.Http.{get_header}
use llm_inference_control_pl.Queue.{Priority, normal, high, low, Queue}
use llm_inference_control_pl.Auth.{KeyStore, RateLimiter}
use llm_inference_control_pl.Slo.{LatencyTracker, Estimator}
use llm_inference_control_pl.Backpressure.{Policy}
use Prim.Native.Char.{code}

-- `slo` holds the tracker and the estimator of WithSLO; `hooked` is what the request hook was called
-- with, latest first.
pub record Gateway : Type 0 where
  pub queue : Queue
  pub wait_timeout : ℕ
  pub id_counter : ℕ
  pub slo : Option (LatencyTracker × Estimator)
  pub policy : Option Policy
  pub key_store : Option KeyStore
  pub rate_limiter : Option RateLimiter
  pub hook_set : Bool
  pub hooked : List (String × Bool)

-- New, before the options
unfoldable pub new : Queue → ℕ → Gateway
new queue wait_timeout = record {
  queue = queue;
  wait_timeout = wait_timeout;
  id_counter = 0;
  slo = none;
  policy = none;
  key_store = none;
  rate_limiter = none;
  hook_set = false;
  hooked = [];
}

-- WithSLO
unfoldable pub with_slo : LatencyTracker → Estimator → Gateway → Gateway
with_slo tracker estimator g = record g { slo = some (tracker, estimator) }

-- WithBackpressure
unfoldable pub with_backpressure : Policy → Gateway → Gateway
with_backpressure policy g = record g { policy = some policy }

-- WithAuth
unfoldable pub with_auth : KeyStore → RateLimiter → Gateway → Gateway
with_auth key_store rate_limiter g = record g {
  key_store = some key_store;
  rate_limiter = some rate_limiter;
}

-- WithRequestHook
unfoldable pub with_request_hook : Gateway → Gateway
with_request_hook g = record g { hook_set = true }

-- The deferred call of the hook.
abbrev pub notify : String → Bool → Gateway → Gateway
notify model success g = if g.hook_set then record g { hooked = (model, success) ∷ g.hooked } else g

-- strings.HasPrefix and strings.TrimPrefix; none if the prefix is not there
unfoldable pub strip_prefix : String → String → Option String
strip_prefix String.[] s = some s
strip_prefix (String.◌∷◌ c p) String.[] = none
strip_prefix (String.◌∷◌ c p) (String.◌∷◌ d s) =
    let rest = strip_prefix p s in if code c == code d then rest else none

abbrev nonempty_key : Option String → Option String
nonempty_key none = none
nonempty_key (some key) = if str_eq key "" then none else some key

-- extractAPIKey
unfoldable pub extract_api_key : Assoc String → Option String
extract_api_key headers = nonempty_key (strip_prefix "Bearer " (get_header "Authorization" headers))

-- parsePriority
unfoldable pub parse_priority : Assoc String → Priority
parse_priority headers =
    let v = get_header "X-Priority" headers in
    if str_eq v "high" then high else if str_eq v "low" then low else normal

-- result.StatusCode >= 200 && result.StatusCode < 300
abbrev pub is_success : ℕ → Bool
is_success status = leb 200 status && leb status 299
