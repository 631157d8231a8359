-- ===== src/Admin/Routes.antt =====
-- The routes of request-plane/admin/admin.go, with the CORS headers in front of all of them.
use llm_inference_control_pl.Common.{
  ℕ, ◌||◌, List, [], Option, none, some, String, str_eq, Assoc, insert, if◌then◌else◌,
}
use llm_inference_control_pl.Common.Http.{
  HttpRequest, status_ok, status_not_found, status_method_not_allowed,
}
use llm_inference_control_pl.Queue.{Queue}
use llm_inference_control_pl.Auth.{KeyStore, RateLimiter}
use llm_inference_control_pl.Admin.{Stats, snapshot, QueueResp, handle_queue, KeyResp, handle_keys}

-- What NewHandler shares with the gateway.
pub record Handler : Type 0 where
  pub queue : Queue
  pub stats : Stats
  pub key_store : Option KeyStore
  pub rate_limiter : Option RateLimiter

pub record StatsResp : Type 0 where
  pub total_requests : ℕ
  pub success_requests : ℕ
  pub error_requests : ℕ

-- handleStats
unfoldable pub handle_stats : Stats → StatsResp
handle_stats s =
    let counts = snapshot s in
    record { total_requests = counts.0; success_requests = counts.1; error_requests = counts.2 }

-- What a handler writes as JSON, if anything.
pub data Page : Type 0 where
  queue_page : QueueResp → Page
  stats_page : StatsResp → Page
  keys_page : List KeyResp → Page
  no_page : Page

pub record Reply : Type 0 where
  pub status : ℕ
  pub headers : Assoc String
  pub page : Page

abbrev json : Page → Assoc String → Reply
json page headers = record {
  status = status_ok;
  headers = insert "Content-Type" "application/json" headers;
  page = page;
}

-- The page of a path; none is not found.
abbrev page_at : ℕ → Handler → String → Option Page
page_at now h path =
    if str_eq path "/admin/queue"
    then some (queue_page (handle_queue h.queue))
    else if str_eq path "/admin/stats"
    then some (stats_page (handle_stats h.stats))
    else if str_eq path "/admin/keys"
    then some (keys_page (handle_keys now h.key_store h.rate_limiter))
    else none

abbrev found : HttpRequest → Assoc String → Option Page → Reply
found req headers none = record { status = status_not_found; headers = headers; page = no_page }
found req headers (some page) =
    if str_eq req.method "GET" || str_eq req.method "HEAD"
    then json page headers
    else record { status = status_method_not_allowed; headers = headers; page = no_page }

abbrev cors : Assoc String
cors =
    insert "Access-Control-Allow-Methods" "GET, OPTIONS"
      (insert "Access-Control-Allow-Origin" "*" [])

-- NewHandler: the routes behind withCORS. The header fields that the mux adds itself are left out, and
-- so are the redirects of a path that is not clean.
unfoldable pub serve_admin : ℕ → Handler → HttpRequest → Reply
serve_admin now h req =
    let routed = found req cors (page_at now h req.path) in
    if str_eq req.method "OPTIONS"
    then record { status = 204; headers = cors; page = no_page }
    else routed
