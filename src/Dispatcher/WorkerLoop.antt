-- ===== src/Dispatcher/WorkerLoop.antt =====
-- workerLoop of dispatcher.go: one worker, with the requests that it finds without blocking.
use llm_inference_control_pl.Common.{
  ℕ, zero, suc, ◌≤◌, ◌≡◌, refl, ap, inl, inr, ◌∙◌, List, [], ◌∷◌, none, some, map, if◌then◌else◌,
  Option-cases, length,
}
use llm_inference_control_pl.Queue.{Request, Queue, try_pop_highest_priority}
use llm_inference_control_pl.Queue.Order.{pending, pop_many, pop_many-eq-take, take_all}
use llm_inference_control_pl.Dispatcher.{Dispatcher, World, dispatch_buffered}
use llm_inference_control_pl.Dispatcher.Stream.{Streamed, dispatch_stream}

-- What a request's channels get.
unfoldable pub dispatch : World → Dispatcher → Request → ℕ → Streamed
dispatch w d req n =
    if req.stream
    then dispatch_stream w d req n
    else let sent = dispatch_buffered w d req n in
      record { result = sent.0; chunks = []; calls = sent.1 }

-- `left` rounds of the loop, until the queue has nothing ready: each request with what it got.
unfoldable pub worker_loop : World → Dispatcher → ℕ → ℕ → Queue → List (Request × Streamed)
worker_loop w d zero n q = []
worker_loop w d (suc left) n q = elim (try_pop_highest_priority q) [
  | none ↦ []
  | some (req, q') ↦
      let sent = dispatch w d req n in (req, sent) ∷ worker_loop w d left sent.calls q'
]

module _ (w : World) (d : Dispatcher) where
  requests_of : List (Request × Streamed) → List Request
  requests_of = map (λ (a : Request × Streamed). a.0)

  worker_loop-pop_many :
      (left n : ℕ) (q : Queue) → requests_of (worker_loop w d left n q) ≡ pop_many left q
  unfolding worker_loop pop_many requests_of
  worker_loop-pop_many zero n q = refl
  worker_loop-pop_many (suc left) n q = elim (Option-cases (try_pop_highest_priority q)) [
    | inl e ↦ rw (e, worker_loop, pop_many) refl
    | inr ((req, q'), e) ↦
        rw (e, worker_loop, pop_many)
          (ap (λ (rs : List Request). req ∷ rs)
            (worker_loop-pop_many left (dispatch w d req n).calls q'))
  ]

  -- A worker alone with a queue gives every pending request exactly one result, in the order of
  -- service, within as many rounds as there are requests, whatever the upstream answers.
  pub worker_loop-pending :
      (left n : ℕ) (q : Queue)
      → length (pending q) ≤ left
      → map (λ (a : Request × Streamed). a.0) (worker_loop w d left n q) ≡ pending q
  unfolding requests_of
  worker_loop-pending left n q h =
      worker_loop-pop_many left n q ∙ pop_many-eq-take left q ∙ take_all left (pending q) h
