-- ===== src/Dispatcher/Pool.antt =====
-- Run of dispatcher.go: the pool of the workers that share the queue, in any interleaving.
pub mod Conserved
pub mod Bound
pub mod Staffing
pub mod Drained
pub mod Jammed
mod Examples
use llm_inference_control_pl.Common.{
  ℕ, zero, suc, ◌+◌, ◌≡◌, ◌≢◌, Bool, true, false, List, [], ◌∷◌, Option, none, some, ℤ, to_ℕ,
}
use llm_inference_control_pl.Common.Chan.{Chan, make_chan, try_receive}
use llm_inference_control_pl.Queue.{
  Priority, Request, Queue, lane, set_lane, try_push, try_pop_highest_priority,
}
use llm_inference_control_pl.Dispatcher.{Dispatcher, World}
use llm_inference_control_pl.Dispatcher.Abandoned.{send_unreceived, chunks_capacity}
use llm_inference_control_pl.Dispatcher.Stream.{Streamed}
use llm_inference_control_pl.Dispatcher.WorkerLoop.{dispatch}

-- Where a goroutine of workerLoop is: before the fast path of Pop, in its blocking `select`,
-- dispatching, returned, or in a send of `streamBody` that nobody receives any more.
pub data Worker : Type 0 where
  ready blocked stopped : Worker
  busy jammed : Request → Worker

-- `accepted` holds the requests that TryPush took, `sent` those that were dispatched, with what their
-- channels got; the latest first.
pub record Pool : Type 0 where
  pub queue : Queue
  pub workers : List Worker
  pub cancelled : Bool
  pub accepted : List Request
  pub sent : List (Request × Streamed)

unfoldable pub idle_workers : ℕ → List Worker
idle_workers zero = []
idle_workers (suc n) = ready ∷ idle_workers n

-- for range d.concurrency: no round if it is 0 or less
abbrev pub start_pool : Dispatcher → Queue → Pool
start_pool d q = record {
  queue = q;
  workers = idle_workers (to_ℕ d.concurrency);
  cancelled = false;
  accepted = [];
  sent = [];
}

-- One of the workers goes from a place to another.
pub data Moved (a b : Worker) : List Worker → List Worker → Type 0 where
  here : {ws : List Worker} → Moved a b (a ∷ ws) (b ∷ ws)
  there : {w : Worker} {ws ws' : List Worker} → Moved a b ws ws' → Moved a b (w ∷ ws) (w ∷ ws')

-- What the dispatch of a request streams does not fit into its channel without a receiver.
abbrev pub Overflows : World → Dispatcher → Request → Type 0
Overflows w d r = (send_unreceived (make_chan chunks_capacity) (dispatch w d r 0).chunks).1 ≢ []

-- A step of a worker. A dispatch has a world of its own, since the calls of other workers come
-- between its own.
pub data Work (d : Dispatcher) (p : Pool) : Pool → Type 0 where
  take :
      {ws : List Worker} {r : Request} {q : Queue}
      → Moved ready (busy r) p.workers ws
      → try_pop_highest_priority p.queue ≡ some (r, q)
      → Work d p (record p { queue = q; workers = ws })
  block :
      {ws : List Worker}
      → Moved ready blocked p.workers ws
      → try_pop_highest_priority p.queue ≡ none
      → Work d p (record p { workers = ws })
  wake :
      {ws : List Worker} {r : Request} {c : Chan Request} (from : Priority)
      → Moved blocked (busy r) p.workers ws
      → try_receive (lane p.queue from) ≡ some (r, c)
      → Work d p (record p { queue = set_lane p.queue from c; workers = ws })
  stop :
      {ws : List Worker}
      → Moved blocked stopped p.workers ws
      → p.cancelled ≡ true
      → Work d p (record p { workers = ws })
  finish :
      {ws : List Worker} {r : Request} (w : World)
      → Moved (busy r) ready p.workers ws
      → Work d p (record p { workers = ws; sent = (r, dispatch w d r 0) ∷ p.sent })
  -- the gateway has given up on the request
  jam :
      {ws : List Worker} {r : Request} (w : World)
      → Moved (busy r) (jammed r) p.workers ws
      → Overflows w d r
      → Work d p (record p { workers = ws })

-- A step of the whole: of a worker, of the gateway, or the end of the context.
pub data Step (d : Dispatcher) (p : Pool) : Pool → Type 0 where
  work : {p' : Pool} → Work d p p' → Step d p p'
  arrive :
      (r : Request)
      → (try_push p.queue r).1 ≡ true
      → Step d p (record p { queue = (try_push p.queue r).0; accepted = r ∷ p.accepted })
  cancel : Step d p (record p { cancelled = true })

-- What the pool may come to from a queue in which nothing waits.
pub data Reach (d : Dispatcher) (q : Queue) : Pool → Type 0 where
  start : Reach d q (start_pool d q)
  later : {p p' : Pool} → Reach d q p → Step d p p' → Reach d q p'

-- Steps of workers alone.
pub data Works (d : Dispatcher) : ℕ → Pool → Pool → Type 0 where
  done : {p : Pool} → Works d zero p p
  next : {n : ℕ} {p p' p'' : Pool} → Work d p p' → Works d n p' p'' → Works d (suc n) p p''
