-- ===== src/Dispatcher/Examples.antt =====
-- Concrete dispatches of dispatcher.go.
use llm_inference_control_pl.Common.{
  ℕ, zero, suc, ◌+◌, ◌*◌, ◌≡◌, ◌≤◌, refl, true, false, List, [], ◌∷◌, none, some, arith, length,
  Elem, pos,
}
use llm_inference_control_pl.Common.{lookup}
use llm_inference_control_pl.Common.Chan.{make_chan, try_send}
use llm_inference_control_pl.Queue.{Queue, normal, Request}
use llm_inference_control_pl.Dispatcher.{
  target_of, Dispatcher, is_retryable_status, World, Reply, unreachable, answers, dispatch_buffered,
  model_chain, new, with_max_attempts, with_fallbacks, buffered_result, dispatch_models, body_for,
  set_model, attempts, attempt,
}
use llm_inference_control_pl.Dispatcher.Stream.{dispatch_stream, stream_body}
use llm_inference_control_pl.Dispatcher.Budget.{is_transient, budget, dispatch_buffered-budget}
use llm_inference_control_pl.Dispatcher.Agreement.{
  is_broken, IsWhole, SameDispatch, stream_agrees_with_buffered,
}
use llm_inference_control_pl.Dispatcher.Abandoned.{send_unreceived, chunks_capacity}

abbrev request : Request
request = record {
  id = 1;
  body = 1 ∷ [];
  model = "m";
  priority = normal;
  enqueued_at = 0;
  key_id = "k";
  stream = true;
}

-- The first two calls meet an overloaded upstream, the third one succeeds.
abbrev world : World
world = record {
  builds = λ target. true;
  reply = λ n target body. reply n;
  fields = λ body. some [];
  encode_string = λ s. some [];
  encode_fields = λ fields. some (2 ∷ []);
}
  where
    reply : ℕ → Reply
    reply zero = answers 503 "text/plain" [] false
    reply (suc zero) = unreachable
    reply (suc (suc n)) = answers 200 "text/event-stream" ((1 ∷ []) ∷ [] ∷ (2 ∷ 3 ∷ []) ∷ []) false

-- Two attempts for "m", then "small".
abbrev dispatcher : Dispatcher
dispatcher = record {
  upstream = "http://router";
  concurrency = pos 4;
  max_attempts = 2;
  fallbacks = ("m", "small" ∷ []) ∷ [];
}

dispatcher_built :
    with_fallbacks
      (("m", "small" ∷ []) ∷ [])
      (with_max_attempts (pos 2) (new "http://router" (pos 4)))
    ≡ dispatcher
unfolding with_fallbacks with_max_attempts new
dispatcher_built = refl

dispatch_buffered-budget_example :
    ((dispatch_buffered world dispatcher request 0).1
      ≤ 0 + 2 * length (model_chain dispatcher request))
    × (is_transient (dispatch_buffered world dispatcher request 0).0 ≡ true
        → (dispatch_buffered world dispatcher request 0).1
          ≡ 0 + budget world dispatcher request (model_chain dispatcher request))
    × ((dispatch_buffered world dispatcher request 0).0.err ≡ none
        → Elem
            (dispatch_buffered world dispatcher request 0).0.served_model
            (model_chain dispatcher request))
dispatch_buffered-budget_example = dispatch_buffered-budget world dispatcher request 0 (omega arith)

world-IsWhole : IsWhole world dispatcher
world-IsWhole = record { target = refl; unbroken = unbroken }
  where
    unbroken :
        (n : ℕ) (body : List ℕ) → is_broken (world.reply n (target_of dispatcher) body) ≡ false
    unbroken zero body = refl
    unbroken (suc zero) body = refl
    unbroken (suc (suc n)) body = refl

stream_agrees_with_buffered_example :
    SameDispatch
      (dispatch_stream world dispatcher request 0)
      (dispatch_buffered world dispatcher request 0)
stream_agrees_with_buffered_example =
    stream_agrees_with_buffered world dispatcher world-IsWhole request 0

-- Both send the fallback's answer, with the third call.
buffered_run :
    dispatch_buffered world dispatcher request 0 ≡ (buffered_result 200 (1 ∷ 2 ∷ 3 ∷ []) "small", 3)
unfolding is_retryable_status dispatch_buffered dispatch_models model_chain body_for set_model
    attempts attempt lookup
buffered_run = refl

-- A reply of 20 reads, each of one byte.
abbrev long_reply : ℕ → List (List ℕ)
long_reply zero = []
long_reply (suc n) = (1 ∷ []) ∷ long_reply n

-- Four of twenty chunks are left unsent.
four_unsent :
    length (send_unreceived (make_chan chunks_capacity) (stream_body (long_reply 20))).1 ≡ 4
unfolding stream_body send_unreceived try_send
four_unsent = refl

abbrev waiting_queue : Queue
waiting_queue = record {
  high_lane = record { buf = []; cap = 2 };
  normal_lane = record { buf = request ∷ record request { id = 2; stream = false } ∷ []; cap = 2 };
  low_lane = record { buf = []; cap = 2 };
}
