-- ===== src/Gateway/Examples.antt =====
-- A concrete request through the gateway of gateway.go.
use mathlib.Core.List.{Perm}
use llm_inference_control_pl.Common.{
  List, String, map, concat, All, ◌++◌, leb, ◌&&◌, insert, ℕ, ◌≡◌, refl, true, false, [], ◌∷◌, none,
  some, lookup, pos,
}
use llm_inference_control_pl.Common.Http.{HttpRequest}
use llm_inference_control_pl.Queue.{normal, Request, Result, Queue, try_push, ahead_of}
use llm_inference_control_pl.Auth.{KeyStore, lookup_key, allow}
use llm_inference_control_pl.Slo.{LatencyTracker, estimate, average, record_latency}
use llm_inference_control_pl.Slo.Examples.{small_floats}
use llm_inference_control_pl.Backpressure.{admit}
use llm_inference_control_pl.Gateway.{Gateway, extract_api_key, strip_prefix, parse_priority}
use llm_inference_control_pl.Gateway.Begin.{
  World, waiting, authenticate, begin_inference, estimate_for,
}
use llm_inference_control_pl.Gateway.Finish.{delivered, finish}
use llm_inference_control_pl.Gateway.Admission.{Began, begin_inference-Began}
use llm_inference_control_pl.Gateway.Access.{Authorized, begin_inference-Authorized}
use llm_inference_control_pl.Gateway.Reporting.{average_after, finish-reports}
use llm_inference_control_pl.Gateway.Sessions.{
  Session, Event, arrives, ends, pops, run, step, opened, ended_number, number_of, numbers,
  calls_of, IsReported, run-hooked,
}

abbrev request : ℕ → Request
request id = record {
  id = id;
  body = 1 ∷ [];
  model = "m";
  priority = normal;
  enqueued_at = 7;
  key_id = "team";
  stream = false;
}

-- One request waits already.
abbrev queue : Queue
queue = record {
  high_lane = record { buf = []; cap = 2 };
  normal_lane = record { buf = request 1 ∷ []; cap = 2 };
  low_lane = record { buf = []; cap = 2 };
}

abbrev tracker : LatencyTracker
tracker = record { avg = []; fallback = 20 }

abbrev store : KeyStore
store = record { keys = ("secret", record { key_id = "team"; requests_per_min = pos 2 }) ∷ [] }

abbrev gateway : Gateway
gateway = record {
  queue = queue;
  wait_timeout = 100;
  id_counter = 1;
  slo = some (tracker, record { concurrency = 2 });
  policy = some (record { max_wait = λ p. some 50 });
  key_store = some store;
  rate_limiter = some (record { buckets = [] });
  hook_set = true;
  hooked = [];
}

abbrev world : World
world = record { floats = small_floats; decode = λ body. some ("m", false) }

abbrev post : HttpRequest
post = record {
  method = "POST";
  path = "/v1/completions";
  headers = ("Authorization", "Bearer secret") ∷ [];
  body = some (1 ∷ []);
}

begin_inference-Began_example : Began world 7 post gateway (begin_inference world 7 post gateway)
begin_inference-Began_example = begin_inference-Began world 7 post gateway

abbrev after : Gateway
after = (begin_inference world 7 post gateway).0

post_waits : begin_inference world 7 post gateway ≡ (after, waiting (request 2) (some 0))
unfolding begin_inference authenticate extract_api_key strip_prefix lookup lookup_key allow
    parse_priority estimate_for estimate average ahead_of admit try_push
post_waits = refl

begin_inference-Authorized_example : Authorized 7 post gateway store "team"
begin_inference-Authorized_example =
    begin_inference-Authorized world 7 post gateway after store (request 2) (some 0) refl post_waits

abbrev reply : Result
reply = record {
  status_code = 200;
  body = 2 ∷ [];
  err = none;
  served_model = "m";
  streaming = false;
  content_type = "";
}

finish-reports_example :
    let end = finish small_floats (request 2) (some 0) (delivered reply [] 30) gateway in
    (end.0.hooked ≡ ("m", leb 200 end.1.status && leb end.1.status 299) ∷ [])
    × (end.0.queue ≡ queue)
    × (t' : LatencyTracker) × (end.0.slo ≡ some (t', record { concurrency = 2 }))
    × ((other : String)
        → average other t' ≡ average_after small_floats "m" (delivered reply [] 30) tracker other)
finish-reports_example =
    finish-reports small_floats (request 2) (some 0) gateway (delivered reply [] 30) tracker
      (record { concurrency = 2 }) refl refl

-- Three requests arrive: the queue is full for the second one, the first one is answered, and the third
-- one is turned away by the rate limiter.
abbrev events : List Event
events =
    arrives 7 post
    ∷ arrives 8 post
    ∷ pops (λ q. q)
    ∷ ends 0 (delivered reply [] 30)
    ∷ arrives 9 post
    ∷ []

abbrev session : Session
session = run world (opened gateway) events

run-hooked_example :
    Perm
      (map ended_number session.ended ++ map number_of session.handlers)
      (numbers session.arrived)
    × All IsReported session.ended
    × (session.gateway.hooked ≡ concat (map calls_of session.ended))
run-hooked_example = run-hooked world gateway events refl refl

first_is_answered :
    (map ended_number session.ended ≡ 2 ∷ 0 ∷ 1 ∷ [])
    × (session.gateway.hooked ≡ ("", false) ∷ ("m", true) ∷ ("m", false) ∷ [])
unfolding run step begin_inference authenticate extract_api_key strip_prefix lookup lookup_key allow
    parse_priority estimate_for estimate average ahead_of admit try_push finish record_latency
    insert
first_is_answered = (refl, refl)
