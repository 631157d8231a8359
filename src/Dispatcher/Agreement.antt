-- ===== src/Dispatcher/Agreement.antt =====
-- dispatchStream against dispatchBuffered: the calls, the decision, the bytes.
use llm_inference_control_pl.Common.{
  ℕ, zero, suc, ◌+◌, ◌≡◌, refl, ap, ◌⊎◌, inl, inr, Bool, true, false, List, [], ◌∷◌, ◌++◌, Option,
  none, some, String, if◌then◌else◌, concat, Bool-cases,
}
use llm_inference_control_pl.Queue.{Request, Result, rewrite_model}
use llm_inference_control_pl.Dispatcher
use llm_inference_control_pl.Dispatcher.{
  target_of, Dispatcher, World, Reply, unreachable, answers, is_retryable_status, model_chain,
  body_for, failed_result, no_result, buffered_result, attempt, buffered_reply, attempts,
  dispatch_models, dispatch_buffered,
}
use llm_inference_control_pl.Dispatcher.Stream
use llm_inference_control_pl.Dispatcher.Stream.{
  has_bytes, stream_body, streaming_result, stream_reply, stream_attempts, Streamed, stream_models,
  dispatch_stream,
}

-- Leaving out the reads that gave no bytes loses none.
concat-stream_body : (reads : List (List ℕ)) → concat (stream_body reads) ≡ concat reads
unfolding stream_body
concat-stream_body [] = refl
concat-stream_body ([] ∷ reads) = concat-stream_body reads
concat-stream_body ((b ∷ bs) ∷ reads) =
    ap (λ (xs : List ℕ). b ∷ bs ++ xs) (concat-stream_body reads)

abbrev pub is_broken : Reply → Bool
is_broken unreachable = false
is_broken (answers status content_type reads broken) = broken

-- The target is a URL, and no body breaks off while it is read.
pub record IsWhole (w : World) (d : Dispatcher) : Type 0 where
  pub target : w.builds (target_of d) ≡ true
  pub unbroken : (n : ℕ) (body : List ℕ) → is_broken (w.reply n (target_of d) body) ≡ false

-- A streamed result with its chunks stands for a buffered one.
pub record Stands (r : Result) (chunks : List (List ℕ)) (buffered : Result) : Type 0 where
  pub streams : r.streaming ≡ true
  pub same_status : r.status_code ≡ buffered.status_code
  pub no_error : (r.err ≡ none) × (buffered.err ≡ none)
  pub same_model : r.served_model ≡ buffered.served_model
  pub same_bytes : concat chunks ≡ buffered.body

abbrev SameRound : Stream.Round → Dispatcher.Round → Type 0
SameRound (Stream.Round.committed r chunks m) (Dispatcher.Round.sent r' m') =
    (m ≡ m') × Stands r chunks r'
SameRound (Stream.Round.committed r chunks m) (Dispatcher.Round.exhausted r' m') = ⊥
SameRound (Stream.Round.exhausted r m) (Dispatcher.Round.sent r' m') = ⊥
SameRound (Stream.Round.exhausted r m) (Dispatcher.Round.exhausted r' m') = (m ≡ m') × (r ≡ r')

-- The same number of calls; the streamed result stands for the buffered one, or nothing was
-- streamed and the results are equal.
pub record SameDispatch (s : Streamed) (b : Result × ℕ) : Type 0 where
  pub same_calls : s.calls ≡ b.1
  pub same_result : Stands s.result s.chunks b.0 ⊎ ((s.result ≡ b.0) × (s.chunks ≡ []))

module _ (w : World) (d : Dispatcher) (whole : IsWhole w d) where
  reply-SameRound :
      (model : String) (n : ℕ) (reply : Reply) (next : Result → Stream.Round)
      (rest : Result → Dispatcher.Round)
      → is_broken reply ≡ false
      → ((r : Result) → SameRound (next r) (rest r))
      → SameRound (stream_reply model n reply next) (
          if (buffered_reply model reply).1
          then rest (buffered_reply model reply).0
          else Dispatcher.Round.sent (buffered_reply model reply).0 n)
  reply-SameRound model n unreachable next rest b h = h _
  reply-SameRound model n (answers status ct reads true) next rest b h = absurd cc
  reply-SameRound model n (answers status ct reads false) next rest b h =
      elim (Bool-cases (is_retryable_status status)) [
        | inl t ↦ rw t (h _)
        | inr t ↦ rw t (
          refl,
          record {
            streams = refl;
            same_status = refl;
            no_error = (refl, refl);
            same_model = refl;
            same_bytes = concat-stream_body reads;
          },
        )
      ]

  attempts-SameRound :
      (body : List ℕ) (model : String) (left n : ℕ) (final : Result)
      → SameRound
          (stream_attempts w d body model left n final)
          (attempts w d body model left n final)
  unfolding stream_attempts attempts attempt
  attempts-SameRound body model zero n final = (refl, refl)
  attempts-SameRound body model (suc left) n final = rw whole.target (
      reply-SameRound model (n + 1) (w.reply n (target_of d) body)
        (stream_attempts w d body model left (n + 1)) (attempts w d body model left (n + 1))
        (whole.unbroken n body) (attempts-SameRound body model left (n + 1)))

  abbrev SameNext : (ℕ → Result → Streamed) → (ℕ → Result → Result × ℕ) → Type 0
  SameNext next next' = (n : ℕ) (final : Result) → SameDispatch (next n final) (next' n final)

  round-SameDispatch :
      (next : ℕ → Result → Streamed) (next' : ℕ → Result → Result × ℕ) (o : Stream.Round)
      (o' : Dispatcher.Round)
      → SameNext next next'
      → SameRound o o'
      → SameDispatch (Stream.continue_with next o) (Dispatcher.continue_with next' o')
  round-SameDispatch next next' (Stream.Round.committed r chunks m) (Dispatcher.Round.sent r' m') h
        k =
      record { same_calls = k.0; same_result = inl k.1 }
  round-SameDispatch next next' (Stream.Round.committed r chunks m)
        (Dispatcher.Round.exhausted r' m') h k =
      absurd k
  round-SameDispatch next next' (Stream.Round.exhausted r m) (Dispatcher.Round.sent r' m') h k =
      absurd k
  round-SameDispatch next next' (Stream.Round.exhausted r m) (Dispatcher.Round.exhausted r' m') h
        k =
      rw (k.0, k.1) (h m' r')

  model-SameDispatch :
      (model : String) (n : ℕ) (final : Result) (next : ℕ → Result → Streamed)
      (next' : ℕ → Result → Result × ℕ) (o : Option (List ℕ))
      → SameNext next next'
      → SameDispatch
          (Stream.one_model w d model n final next o)
          (Dispatcher.one_model w d model n final next' o)
  model-SameDispatch model n final next next' none h = h n (failed_result (rewrite_model model) "")
  model-SameDispatch model n final next next' (some body) h =
      round-SameDispatch next next' _ _ h (attempts-SameRound body model d.max_attempts n final)

  models-SameDispatch :
      (req : Request) (models : List String)
      → SameNext (stream_models w d req models) (dispatch_models w d req models)
  unfolding stream_models dispatch_models
  models-SameDispatch req [] n final = record { same_calls = refl; same_result = inr (refl, refl) }
  models-SameDispatch req (model ∷ models) n final =
      model-SameDispatch model n final (stream_models w d req models)
        (dispatch_models w d req models) (body_for w req model) (models-SameDispatch req models)

  -- If the target is a URL and no body breaks off, dispatchStream and dispatchBuffered make the
  -- same number of calls. Either both end in a final reply with the same status, model and bytes,
  -- or nothing is streamed and their results are equal.
  pub stream_agrees_with_buffered :
      (req : Request) (n : ℕ)
      → SameDispatch (dispatch_stream w d req n) (dispatch_buffered w d req n)
  unfolding dispatch_stream dispatch_buffered
  stream_agrees_with_buffered req n = models-SameDispatch req (model_chain d req) n no_result
