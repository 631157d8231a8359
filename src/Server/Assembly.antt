-- ===== src/Server/Assembly.antt =====
-- main of request-plane/cmd/server/main.go: the parts that the flags make, and who shares them. The
-- listeners, the signals and the printed lines are not modelled.
use llm_inference_control_pl.Common.{ℕ, ◌*◌, ◌^◌, Option, none, some, String, ℤ, pos, negsuc}
use llm_inference_control_pl.Queue
use llm_inference_control_pl.Queue.{Priority, high, normal, low, Queue}
use llm_inference_control_pl.Dispatcher
use llm_inference_control_pl.Dispatcher.{Dispatcher, with_max_attempts, with_fallbacks}
use llm_inference_control_pl.Auth.{KeyStore, RateLimiter, new_rate_limiter}
use llm_inference_control_pl.Slo.{new_latency_tracker, new_estimator}
use llm_inference_control_pl.Backpressure
use llm_inference_control_pl.Backpressure.{Policy}
use llm_inference_control_pl.Gateway
use llm_inference_control_pl.Gateway.{
  Gateway, with_slo, with_backpressure, with_auth, with_request_hook,
}
use llm_inference_control_pl.Admin.{Stats, new_stats}
use llm_inference_control_pl.Server.{parse_fallback_map, parse_api_keys}

-- The flags, without the addresses to listen on. Durations are nanoseconds.
pub record Flags : Type 0 where
  pub upstream : String
  pub queue_capacity : ℤ
  pub concurrency : ℤ
  pub wait_timeout : ℕ
  pub slo_fallback_latency : ℕ
  pub max_wait_high : ℕ
  pub max_wait_normal : ℕ
  pub max_wait_low : ℕ
  pub max_attempts_per_model : ℤ
  pub fallback_map : String
  pub api_keys : String

-- The defaults.
abbrev pub default_flags : Flags
default_flags = record {
  upstream = "http://localhost:8080";
  queue_capacity = pos 1000;
  concurrency = pos 10;
  wait_timeout = 30 * 10 ^ 9;
  slo_fallback_latency = 2 * 10 ^ 9;
  max_wait_high = 5 * 10 ^ 9;
  max_wait_normal = 15 * 10 ^ 9;
  max_wait_low = 60 * 10 ^ 9;
  max_attempts_per_model = pos 2;
  fallback_map = "";
  api_keys = "";
}

-- The queue is the gateway's, and so is the rate limiter if there are keys: the dispatcher and the
-- admin API have pointers to them. `spare` is the limiter that the admin API has without keys.
pub record Server : Type 0 where
  pub gateway : Gateway
  pub dispatcher : Dispatcher
  pub stats : Stats
  pub spare : RateLimiter

abbrev pub thresholds : Flags → Priority → Option ℕ
thresholds f high = some f.max_wait_high
thresholds f normal = some f.max_wait_normal
thresholds f low = some f.max_wait_low

-- if keyStore != nil { … }
abbrev pub with_keys : Option KeyStore → Gateway → Gateway
with_keys none g = g
with_keys (some store) g = with_auth store new_rate_limiter g

unfoldable pub make_gateway : Flags → Queue → Gateway
make_gateway f q = with_keys (parse_api_keys f.api_keys) (
    with_request_hook (
      with_backpressure (Backpressure.new (thresholds f)) (
        with_slo (new_latency_tracker f.slo_fallback_latency) (new_estimator f.concurrency)
          (Gateway.new q f.wait_timeout))))

unfoldable pub make_dispatcher : Flags → Dispatcher
make_dispatcher f =
    with_fallbacks (parse_fallback_map f.fallback_map)
      (with_max_attempts f.max_attempts_per_model (Dispatcher.new f.upstream f.concurrency))

-- The queue: `make` panics at a negative capacity.
abbrev pub make_queue : ℤ → Option Queue
make_queue (pos n) = some (Queue.new n)
make_queue (negsuc n) = none

abbrev pub serve : Flags → Option Queue → Option Server
serve f none = none
serve f (some q) = some (record {
  gateway = make_gateway f q;
  dispatcher = make_dispatcher f;
  stats = new_stats;
  spare = new_rate_limiter;
})

-- main, up to the listeners; none is a panic
unfoldable pub assemble : Flags → Option Server
assemble f = serve f (make_queue f.queue_capacity)
