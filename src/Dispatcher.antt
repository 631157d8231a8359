-- ===== src/Dispatcher.antt =====
-- request-plane/dispatcher/dispatcher.go: how one request is forwarded. The HTTP client and the JSON
-- functions of setModel are parameters. `n` counts the calls of the client that were made before.
pub mod Stream
pub mod Budget
pub mod Agreement
pub mod Abandoned
pub mod WorkerLoop
pub mod Pool
mod Examples
use Prim.Native.String.{◌++◌ as str_append}
use llm_inference_control_pl.Common.{
  ℕ, zero, suc, ◌+◌, Bool, true, false, ◌||◌, List, [], ◌∷◌, ◌++◌, Option, none, some, String,
  str_eq, Assoc, lookup, insert, ℤ, at_least_one, ◌==◌, if◌then◌else◌, concat, select, length, ltb,
}
use llm_inference_control_pl.Common.Http.{status_bad_gateway, status_service_unavailable}
use llm_inference_control_pl.Queue.{
  Request, Result, Failure, rewrite_model, build_request, upstream_unreachable, read_response,
}

pub record Dispatcher : Type 0 where
  pub upstream : String
  pub concurrency : ℤ
  pub max_attempts : ℕ
  pub fallbacks : Assoc (List String)

-- New, before the options
unfoldable pub new : String → ℤ → Dispatcher
new upstream concurrency = record {
  upstream = upstream;
  concurrency = concurrency;
  max_attempts = 1;
  fallbacks = [];
}

-- WithMaxAttempts
unfoldable pub with_max_attempts : ℤ → Dispatcher → Dispatcher
with_max_attempts n d = record d { max_attempts = at_least_one n }

-- WithFallbacks
unfoldable pub with_fallbacks : Assoc (List String) → Dispatcher → Dispatcher
with_fallbacks fallbacks d = record d { fallbacks = fallbacks }

-- The answer of the upstream router. `reads` is what each Read of the body gives, and `broken` says
-- that the last one fails with an error other than the end of the body.
pub data Reply : Type 0 where
  unreachable : Reply
  answers : (status : ℕ) (content_type : String) (reads : List (List ℕ)) (broken : Bool) → Reply

-- `builds` says whether http.NewRequest accepts the target. `fields` and `encode_fields` decode and
-- encode a JSON object, `encode_string` a string.
pub record World : Type 0 where
  pub builds : String → Bool
  pub reply : ℕ → String → List ℕ → Reply
  pub fields : List ℕ → Option (Assoc (List ℕ))
  pub encode_string : String → Option (List ℕ)
  pub encode_fields : Assoc (List ℕ) → Option (List ℕ)

abbrev encode_model : World → Assoc (List ℕ) → Option (List ℕ) → Option (List ℕ)
encode_model w fields none = none
encode_model w fields (some encoded) = w.encode_fields (insert "model" encoded fields)

abbrev set_decoded : World → String → Option (Assoc (List ℕ)) → Option (List ℕ)
set_decoded w model none = none
set_decoded w model (some fields) = encode_model w fields (w.encode_string model)

-- setModel; none is its error
unfoldable pub set_model : World → List ℕ → String → Option (List ℕ)
set_model w body model = set_decoded w model (w.fields body)

-- isRetryableStatus
unfoldable pub is_retryable_status : ℕ → Bool
is_retryable_status code = code == status_service_unavailable || code == status_bad_gateway

abbrev or_no_models : Option (List String) → List String
or_no_models none = []
or_no_models (some models) = models

-- append([]string{req.Model}, d.fallbacks[req.Model]...)
unfoldable pub model_chain : Dispatcher → Request → List String
model_chain d req = req.model ∷ or_no_models (lookup req.model d.fallbacks)

-- The body for a model of the chain: it is rewritten for a fallback only.
unfoldable pub body_for : World → Request → String → Option (List ℕ)
body_for w req model = if str_eq model req.model then some req.body else set_model w req.body model

abbrev pub failed_result : Failure → String → Result
failed_result e model = record {
  status_code = 0;
  body = [];
  err = some e;
  served_model = model;
  streaming = false;
  content_type = "";
}

-- queue.Result{}
abbrev pub no_result : Result
no_result = record {
  status_code = 0;
  body = [];
  err = none;
  served_model = "";
  streaming = false;
  content_type = "";
}

abbrev pub buffered_result : ℕ → List ℕ → String → Result
buffered_result status body model = record {
  status_code = status;
  body = body;
  err = none;
  served_model = model;
  streaming = false;
  content_type = "";
}

-- attempt, after the call of the client: the result, and whether it is retryable
abbrev pub buffered_reply : String → Reply → Result × Bool
buffered_reply model unreachable = (failed_result upstream_unreachable model, true)
buffered_reply model (answers status content_type reads true) =
    (failed_result read_response model, false)
buffered_reply model (answers status content_type reads false) =
    (buffered_result status (concat reads) model, is_retryable_status status)

-- The target of buildRequest.
abbrev pub target_of : Dispatcher → String
target_of d = str_append d.upstream "/v1/chat/completions"

-- attempt
unfoldable pub attempt : World → Dispatcher → ℕ → List ℕ → String → Result × Bool
attempt w d n body model =
    if w.builds (target_of d)
    then buffered_reply model (w.reply n (target_of d) body)
    else (failed_result build_request model, false)

-- The state of a dispatch between two models: the result was sent, or all attempts were used up and
-- `final` is the last result.
pub data Round : Type 0 where
  sent : Result → ℕ → Round
  exhausted : Result → ℕ → Round

-- The calls after an attempt: none is made if the request cannot be built, which is not retried.
abbrev pub calls_after : World → Dispatcher → ℕ → ℕ
calls_after w d n = if w.builds (target_of d) then n + 1 else n

-- for attempt := 1; attempt <= d.maxAttempts; …, with the attempts that are left
unfoldable pub attempts : World → Dispatcher → List ℕ → String → ℕ → ℕ → Result → Round
attempts w d body model zero n final = exhausted final n
attempts w d body model (suc left) n final =
    let (result, retryable) = attempt w d n body model in
    let rest = attempts w d body model left (n + 1) result in
    if retryable then rest else sent result (calls_after w d n)

abbrev pub continue_with : (ℕ → Result → Result × ℕ) → Round → Result × ℕ
continue_with next (sent result n) = (result, n)
continue_with next (exhausted final n) = next n final

abbrev pub one_model :
    World
    → Dispatcher
    → String
    → ℕ
    → Result
    → (ℕ → Result → Result × ℕ)
    → Option (List ℕ)
    → Result × ℕ
one_model w d model n final next none = next n (failed_result (rewrite_model model) "")
one_model w d model n final next (some body) =
    continue_with next (attempts w d body model d.max_attempts n final)

-- The loop over the chain: the result that is sent, and the number of calls.
unfoldable pub dispatch_models :
    World → Dispatcher → Request → List String → ℕ → Result → Result × ℕ
dispatch_models w d req [] n final = (final, n)
dispatch_models w d req (model ∷ models) n final =
    one_model w d model n final (dispatch_models w d req models) (body_for w req model)

-- dispatchBuffered, from the n-th call of the client on
unfoldable pub dispatch_buffered : World → Dispatcher → Request → ℕ → Result × ℕ
dispatch_buffered w d req n = dispatch_models w d req (model_chain d req) n no_result
