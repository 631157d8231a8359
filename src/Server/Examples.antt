-- ===== src/Server/Examples.antt =====
-- Concrete flags of request-plane/cmd/server/main.go, and the server that they make.
use llm_inference_control_pl.Common.{
  ℕ, ◌≡◌, sym, ◌-◌, ◌^◌, refl, false, List, [], ◌∷◌, map, some, String, Assoc, lookup, insert, All,
  pos, negsuc, arith,
}
use llm_inference_control_pl.Common.Text.{split, split_once, join}
use llm_inference_control_pl.Common.Decimal.{format_int, print_digits, parse_uint, atoi}
use llm_inference_control_pl.Common.Http.{HttpRequest}
use llm_inference_control_pl.Queue.{normal, Request, new, try_push, ahead_of}
use llm_inference_control_pl.Auth.{lookup_key, allow, new_key_store, add_key, new_rate_limiter}
use llm_inference_control_pl.Slo.{estimate, average, new_estimator, new_latency_tracker}
use llm_inference_control_pl.Slo.Examples.{small_floats}
use llm_inference_control_pl.Backpressure
use llm_inference_control_pl.Backpressure.{admit}
use llm_inference_control_pl.Gateway
use llm_inference_control_pl.Gateway.{
  Gateway, extract_api_key, strip_prefix, parse_priority, with_slo, with_backpressure, with_auth,
  with_request_hook,
}
use llm_inference_control_pl.Gateway.Sessions.{arrives, opened, run, step}
use llm_inference_control_pl.Gateway.Begin.{
  World, waiting, authenticate, begin_inference, estimate_for,
}
use llm_inference_control_pl.Admin.{KeyResp, handle_keys, new_stats}
use llm_inference_control_pl.Server.{fallback_pairs, parse_fallback_map, key_pairs, parse_api_keys}
use llm_inference_control_pl.Server.Flags.{
  print_fallbacks, IsChain, parse-print_fallbacks, print_keys, IsLimit, stored, parse-print_keys,
}
use llm_inference_control_pl.Server.Assembly.{
  Flags, Server, default_flags, make_gateway, make_dispatcher, assemble,
}
use llm_inference_control_pl.Server.Secrets.{assemble-authorized, assemble-reveals}

abbrev chains : Assoc (List String)
chains = ("llama3:70b", "llama3:8b" ∷ "llama3:3b" ∷ []) ∷ ("mistral:7b", "llama3:3b" ∷ []) ∷ []

-- The example of the flag's help text.
print_chains : print_fallbacks chains ≡ "llama3:70b=llama3:8b,llama3:3b;mistral:7b=llama3:3b"
unfolding join
print_chains = refl

chains-IsChain : All IsChain chains
chains-IsChain = (ground arith)

parse-print_fallbacks_example : parse_fallback_map (print_fallbacks chains) ≡ chains
parse-print_fallbacks_example = parse-print_fallbacks chains (ground arith) chains-IsChain

-- Pairs without a model, without fallbacks or without "=" are left out.
parse_malformed : parse_fallback_map "a=b,c;=x;d=;e" ≡ ("a", "b" ∷ "c" ∷ []) ∷ []
unfolding parse_fallback_map fallback_pairs split split_once insert
parse_malformed = refl

abbrev limits : Assoc ℕ
limits = ("secret", 2) ∷ ("other", 0) ∷ []

print_limits : print_keys limits ≡ "secret=2,other=0"
unfolding join format_int print_digits
print_limits = refl

limits-IsLimit : All IsLimit limits
limits-IsLimit = (ground arith)

parse-print_keys_example :
    parse_api_keys (print_keys limits) ≡ some (record { keys = stored limits })
parse-print_keys_example = parse-print_keys limits (cc) (ground arith) limits-IsLimit

-- A limit that is no number is 0, which is unlimited, and one that is too large is the largest int64.
atoi_edges :
    (atoi "x" ≡ pos 0)
    × (atoi "+7" ≡ pos 7)
    × (atoi "-7" ≡ negsuc 6)
    × (atoi "" ≡ pos 0)
    × (atoi "-" ≡ pos 0)
    × (atoi "99999999999999999999x" ≡ pos (2 ^ 63 - 1))
unfolding atoi parse_uint
atoi_edges = (refl, refl, refl, refl, refl, refl)

abbrev flags : Flags
flags = record default_flags { api_keys = "secret=2,other=0" }

abbrev server : Server
server = record {
  gateway = make_gateway flags (new 1000);
  dispatcher = make_dispatcher flags;
  stats = record { total = 0; success = 0; errors = 0 };
  spare = record { buckets = [] };
}

server_starts : assemble flags ≡ some server
unfolding assemble
server_starts = unfold new_stats new_rate_limiter in refl

assemble-reveals_example :
    map
      (λ (k : KeyResp). k.key_id)
      (handle_keys 7 server.gateway.key_store server.gateway.rate_limiter)
    ≡ "secret" ∷ "other" ∷ []
assemble-reveals_example =
    assemble-reveals flags server limits server_starts (sym print_limits) (cc) (ground arith)
      limits-IsLimit 7

abbrev world : World
world = record { floats = small_floats; decode = λ body. some ("m", false) }

abbrev post : HttpRequest
post = record {
  method = "POST";
  path = "/v1/completions";
  headers = ("Authorization", "Bearer secret") ∷ [];
  body = some (1 ∷ []);
}

abbrev request : Request
request = record {
  id = 2;
  body = 1 ∷ [];
  model = "m";
  priority = normal;
  enqueued_at = 8;
  key_id = "secret";
  stream = false;
}

-- The second of two requests.
abbrev busy_gateway : Gateway
busy_gateway = (run world (opened server.gateway) (arrives 7 post ∷ [])).gateway

abbrev after : Gateway
after = (begin_inference world 8 post busy_gateway).0

post_waits : begin_inference world 8 post busy_gateway ≡ (after, waiting request (some 0))
unfolding begin_inference authenticate extract_api_key strip_prefix lookup lookup_key allow
    parse_priority estimate_for estimate average ahead_of admit try_push make_gateway with_slo
    with_auth with_backpressure with_request_hook Gateway.new Backpressure.new parse_api_keys
    key_pairs add_key new_key_store split split_once insert atoi parse_uint new_rate_limiter
    new_estimator new_latency_tracker new run step
post_waits = refl

assemble-authorized_example :
    (limit : ℕ) × (lookup "secret" limits ≡ some limit)
    × (extract_api_key post.headers ≡ some "secret")
assemble-authorized_example =
    assemble-authorized flags server limits server_starts (sym print_limits) (cc) (ground arith)
      limits-IsLimit world (arrives 7 post ∷ []) 8 post after request (some 0) post_waits
