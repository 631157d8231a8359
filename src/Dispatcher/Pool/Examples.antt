-- ===== src/Dispatcher/Pool/Examples.antt =====
-- Concrete runs of the pool of dispatcher.go with one worker.
use mathlib.Core.List.{Perm}
use llm_inference_control_pl.Common.{
  ◌+◌, ◌*◌, ◌≤◌, ◌≡◌, refl, true, false, ℕ, zero, suc, List, [], ◌∷◌, ◌++◌, arith, none, pos,
  length,
}
use llm_inference_control_pl.Common.Chan.{try_receive}
use llm_inference_control_pl.Queue.{
  normal, high, low, Request, new, try_push, try_pop_highest_priority,
}
use llm_inference_control_pl.Queue.Order.{pending}
use llm_inference_control_pl.Dispatcher.{Dispatcher, World, answers}
use llm_inference_control_pl.Dispatcher.WorkerLoop.{dispatch}
use llm_inference_control_pl.Dispatcher.Pool.{
  Worker, ready, blocked, busy, Pool, idle_workers, Moved, here, there, Work, take, block, wake,
  stop, finish, jam, jammed, work, arrive, Reach, start, later, done, next,
}
use llm_inference_control_pl.Dispatcher.Pool.Conserved.{requests_of}
use llm_inference_control_pl.Dispatcher.Pool.Bound.{Works-bound}
use llm_inference_control_pl.Dispatcher.Pool.Staffing.{Reach-unstaffed}
use llm_inference_control_pl.Dispatcher.Pool.Drained.{AtRest, stuck_requests, Reach-drained}

abbrev request : Request
request = record {
  id = 1;
  body = 1 ∷ [];
  model = "m";
  priority = normal;
  enqueued_at = 0;
  key_id = "k";
  stream = false;
}

abbrev world : World
world = record {
  builds = λ target. true;
  reply = λ n target body. answers 200 "text/plain" ((2 ∷ []) ∷ []) false;
  fields = λ body. none;
  encode_string = λ s. none;
  encode_fields = λ fields. none;
}

abbrev single : Dispatcher
single = record {
  upstream = "http://router";
  concurrency = pos 1;
  max_attempts = 1;
  fallbacks = [];
}

-- The request is waiting for the only worker.
abbrev arrived : Pool
arrived = record {
  queue = record (new 1) { normal_lane = record { buf = request ∷ []; cap = 1 } };
  workers = ready ∷ [];
  cancelled = false;
  accepted = request ∷ [];
  sent = [];
}

abbrev taken : Pool
taken = record arrived { queue = new 1; workers = busy request ∷ [] }

abbrev sent_pool : Pool
sent_pool = record taken {
  workers = ready ∷ [];
  sent = (request, dispatch world single request 0) ∷ [];
}

abbrev final : Pool
final = record sent_pool { workers = blocked ∷ [] }

take_first : Work single arrived taken
unfolding new try_pop_highest_priority
take_first = take here refl

Works-bound_example : 2 ≤ 3 * (length (pending arrived.queue) + length arrived.workers)
Works-bound_example = Works-bound single (next take_first (next (finish world here) done))

reach_arrived : Reach single (new 1) arrived
unfolding new try_push idle_workers
reach_arrived = later start (arrive request refl)

reach_final : Reach single (new 1) final
unfolding new try_pop_highest_priority
reach_final =
    later (later (later reach_arrived (work take_first)) (work (finish world here)))
      (work (block here refl))

nobody_moves : {a b : Worker} {ws : List Worker} → Moved a b [] ws → ⊥
nobody_moves m = elim m [ ]

only_blocked : {a b : Worker} {ws : List Worker} → Moved a b (blocked ∷ []) ws → a ≡ blocked
only_blocked here = refl
only_blocked (there m) = absurd (nobody_moves m)

final-AtRest : AtRest single final
unfolding new try_receive
final-AtRest p (take m e) = let h = only_blocked m in absurd cc
final-AtRest p (block m e) = let h = only_blocked m in absurd cc
final-AtRest p (wake high m e) = cc
final-AtRest p (wake normal m e) = cc
final-AtRest p (wake low m e) = cc
final-AtRest p (stop m e) = cc
final-AtRest p (finish w m) = let h = only_blocked m in absurd cc
final-AtRest p (jam w m e) = let h = only_blocked m in absurd cc

Reach-drained_example : Perm final.accepted (requests_of final.sent ++ stuck_requests final.workers)
Reach-drained_example = Reach-drained single 1 reach_final (omega arith) refl final-AtRest

-- Without workers, the request stays in the queue.
abbrev unstaffed : Dispatcher
unstaffed = record single { concurrency = pos 0 }

reach_unstaffed : Reach unstaffed (new 1) (record arrived { workers = [] })
unfolding new try_push idle_workers
reach_unstaffed = later start (arrive request refl)

Reach-unstaffed_example : (◌≡◌ {A = List Worker} [] []) × (arrived.sent ≡ [])
Reach-unstaffed_example = Reach-unstaffed unstaffed reach_unstaffed refl

-- The only worker streams a body of 17 chunks that nobody receives; then the next request arrives.
abbrev long_world : World
long_world = record world {
  reply = λ n target body. answers 200 "text/event-stream" (long_body 17) false;
}
  where
    long_body : ℕ → List (List ℕ)
    long_body zero = []
    long_body (suc n) = (2 ∷ []) ∷ long_body n

abbrev streamed : Request
streamed = record request { stream = true }

abbrev busy_pool : Pool
busy_pool = record arrived { queue = new 1; workers = busy streamed ∷ []; accepted = streamed ∷ [] }

abbrev jammed_pool : Pool
jammed_pool = record busy_pool { workers = jammed streamed ∷ [] }
