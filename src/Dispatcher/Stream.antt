-- ===== src/Dispatcher/Stream.antt =====
-- dispatchStream and streamBody of dispatcher.go.
use llm_inference_control_pl.Common.{
  ℕ, zero, suc, ◌+◌, Bool, true, false, List, [], ◌∷◌, Option, none, some, String, concat, select,
  if◌then◌else◌,
}
use llm_inference_control_pl.Queue.{
  Request, Result, rewrite_model, build_request, upstream_unreachable,
}
use llm_inference_control_pl.Dispatcher.{
  target_of, Dispatcher, World, Reply, unreachable, answers, is_retryable_status, model_chain,
  body_for, failed_result, no_result, buffered_result,
}

-- `n > 0`
abbrev pub has_bytes : List ℕ → Bool
has_bytes [] = false
has_bytes (b ∷ bs) = true

-- streamBody: every read that gave bytes is sent as a chunk; the last one ends the loop.
unfoldable pub stream_body : List (List ℕ) → List (List ℕ)
stream_body reads = select has_bytes reads

-- The result with which the dispatcher commits.
abbrev pub streaming_result : ℕ → String → String → Result
streaming_result status content_type model = record {
  status_code = status;
  body = [];
  err = none;
  served_model = model;
  streaming = true;
  content_type = content_type;
}

-- What is sent: the result on `ResultCh`, the chunks on `Chunks`, and the calls so far.
pub data Round : Type 0 where
  committed : Result → List (List ℕ) → ℕ → Round
  exhausted : Result → ℕ → Round

-- One attempt after the call: the reply commits, or leaves its result behind.
abbrev pub stream_reply : String → ℕ → Reply → (Result → Round) → Round
stream_reply model n unreachable next = next (failed_result upstream_unreachable model)
stream_reply model n (answers status content_type reads broken) next =
    if is_retryable_status status
    then next (buffered_result status (concat reads) model)
    else committed (streaming_result status content_type model) (stream_body reads) n

-- The attempts that are left for a model.
unfoldable pub stream_attempts : World → Dispatcher → List ℕ → String → ℕ → ℕ → Result → Round
stream_attempts w d body model zero n final = exhausted final n
stream_attempts w d body model (suc left) n final =
    if w.builds (target_of d)
    then stream_reply model (n + 1) (w.reply n (target_of d) body)
        (stream_attempts w d body model left (n + 1))
    else stream_attempts w d body model left n (failed_result build_request model)

-- All that one streaming dispatch sends; `Chunks` is closed at the end in any case.
pub record Streamed : Type 0 where
  pub result : Result
  pub chunks : List (List ℕ)
  pub calls : ℕ

abbrev pub continue_with : (ℕ → Result → Streamed) → Round → Streamed
continue_with next (committed result chunks n) = record {
  result = result;
  chunks = chunks;
  calls = n;
}
continue_with next (exhausted final n) = next n final

abbrev pub one_model :
    World → Dispatcher → String → ℕ → Result → (ℕ → Result → Streamed) → Option (List ℕ) → Streamed
one_model w d model n final next none = next n (failed_result (rewrite_model model) "")
one_model w d model n final next (some body) =
    continue_with next (stream_attempts w d body model d.max_attempts n final)

unfoldable pub stream_models : World → Dispatcher → Request → List String → ℕ → Result → Streamed
stream_models w d req [] n final = record { result = final; chunks = []; calls = n }
stream_models w d req (model ∷ models) n final =
    one_model w d model n final (stream_models w d req models) (body_for w req model)

-- dispatchStream
unfoldable pub dispatch_stream : World → Dispatcher → Request → ℕ → Streamed
dispatch_stream w d req n = stream_models w d req (model_chain d req) n no_result
