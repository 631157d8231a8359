-- ===== src/Gateway/Finish.antt =====
-- The `select` of handleInference of gateway.go and what follows, with streamResponse.
use llm_inference_control_pl.Common.{
  ℕ, ◌/◌, ◌^◌, false, List, [], ◌∷◌, Option, none, some, String, str_eq, Assoc, insert, concat,
  if◌then◌else◌,
}
use llm_inference_control_pl.Common.Decimal.{format_int}
use llm_inference_control_pl.Common.Http.{
  Payload, bytes, text, format, Response, http_error, status_bad_gateway, status_gateway_timeout,
}
use llm_inference_control_pl.Queue.{
  Request, Result, Failure, rewrite_model, build_request, upstream_unreachable, read_response,
}
use llm_inference_control_pl.Slo.{FloatOps, LatencyTracker, Estimator, record_latency}
use llm_inference_control_pl.Gateway.{Gateway, notify, is_success}

-- The result with the chunks that follow it and the time since the request was queued, or the
-- timeout.
pub data Delivery : Type 0 where
  delivered : Result → (chunks : List (List ℕ)) → (actual_wait : ℕ) → Delivery
  timed_out : Delivery

-- The text of an error; the wrapped error is left as `%w`.
abbrev pub failure_text : Failure → Payload
failure_text (rewrite_model model) = format "rewrite model for fallback %q: %w" (model ∷ [])
failure_text build_request = text "build upstream request: %w"
failure_text upstream_unreachable = text "upstream unreachable: %w"
failure_text read_response = text "read upstream response: %w"

abbrev pub estimate_header : Option ℕ → Assoc String
estimate_header none = []
estimate_header (some wait) = insert "X-Estimated-Wait-Ms" (format_int (wait / 10 ^ 6)) []

abbrev pub set_header : String → String → Assoc String → Assoc String
set_header k v headers = if str_eq v "" then headers else insert k v headers

-- streamResponse: the chunks are written one after the other.
unfoldable pub stream_response : Assoc String → Result → List (List ℕ) → Response
stream_response headers result chunks = record {
  status = result.status_code;
  headers = insert "Cache-Control" "no-cache" (
      insert "Content-Type"
        (if str_eq result.content_type "" then "text/event-stream" else result.content_type)
        (set_header "X-Served-Model" result.served_model headers));
  payload = bytes (concat chunks);
}

abbrev pub buffered_response : Assoc String → Result → Response
buffered_response headers result = record {
  status = result.status_code;
  headers =
      insert "Content-Type" "application/json"
        (set_header "X-Served-Model" result.served_model headers);
  payload = bytes result.body;
}

-- After the latency was recorded.
abbrev pub respond :
    Assoc String → Request → Result → List (List ℕ) → Option Failure → Gateway → Gateway × Response
respond headers r result chunks (some e) g =
    (notify r.model false g, http_error headers (failure_text e) status_bad_gateway)
respond headers r result chunks none g = (
  notify r.model (is_success result.status_code) g,
  (if result.streaming
      then stream_response headers result chunks
      else buffered_response headers result),
)

abbrev pub record_wait :
    FloatOps
    → String
    → ℕ
    → Option (LatencyTracker × Estimator)
    → Option (LatencyTracker × Estimator)
record_wait f model wait none = none
record_wait f model wait (some (tracker, estimator)) =
    some (record_latency f model wait tracker, estimator)

abbrev pub wait_header : ℕ → Option (LatencyTracker × Estimator) → Assoc String → Assoc String
wait_header wait none headers = headers
wait_header wait (some slo) headers = insert "X-Actual-Wait-Ms" (format_int (wait / 10 ^ 6)) headers

unfoldable pub finish : FloatOps → Request → Option ℕ → Delivery → Gateway → Gateway × Response
finish f r estimated timed_out g = (
  notify r.model false g,
  http_error (estimate_header estimated) (text "request timed out waiting for dispatch")
      status_gateway_timeout,
)
finish f r estimated (delivered result chunks wait) g =
    respond (wait_header wait g.slo (estimate_header estimated)) r result chunks result.err
      (record g { slo = record_wait f r.model wait g.slo })
