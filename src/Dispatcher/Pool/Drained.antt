-- ===== src/Dispatcher/Pool/Drained.antt =====
-- The pool of dispatcher.go at rest.
use mathlib.Core.List.{Perm, append-nil}
use llm_inference_control_pl.Common.{
  ℕ, ◌<◌, ◌≡◌, inl, inr, refl, ap, subst, true, false, List, [], ◌∷◌, ◌++◌, some, none, arith,
  length, to_ℕ, Option-cases, All,
}
use llm_inference_control_pl.Common.Chan.{Chan, try_receive, take_front}
use llm_inference_control_pl.Queue.{
  Priority, high, normal, low, Request, lane, try_pop_highest_priority, new,
}
use llm_inference_control_pl.Queue.Order.{pending}
use llm_inference_control_pl.Dispatcher.{Dispatcher, World, unreachable}
use llm_inference_control_pl.Dispatcher.Pool.{
  Worker, ready, blocked, stopped, busy, Pool, Moved, here, there, Work, take, block, wake, finish,
  jammed, Reach,
}
use llm_inference_control_pl.Dispatcher.Pool.Staffing.{AtWork, Reach-IsStaffed}
use llm_inference_control_pl.Dispatcher.Pool.Conserved.{in_flight, requests_of, Reach-IsConserved}

-- Some answer of an upstream, for a dispatch that ends.
abbrev down : World
down = record {
  builds = λ target. true;
  reply = λ n target body. unreachable;
  fields = λ body. none;
  encode_string = λ s. none;
  encode_fields = λ fields. none;
}

-- No worker can go on.
abbrev pub AtRest : Dispatcher → Pool → Type 0
AtRest d p = (p' : Pool) → Work d p p' → ⊥

-- The requests whose workers are blocked for good.
abbrev stuck : Worker → List Request → List Request
stuck (jammed r) rs = r ∷ rs
stuck ready rs = rs
stuck blocked rs = rs
stuck stopped rs = rs
stuck (busy r) rs = rs

abbrev pub stuck_requests : List Worker → List Request
stuck_requests [] = []
stuck_requests (w ∷ ws) = stuck w (stuck_requests ws)

none_busy :
    (ws : List Worker)
    → ((r : Request) (ws' : List Worker) → Moved (busy r) ready ws ws' → ⊥)
    → in_flight ws ≡ stuck_requests ws
none_busy [] h = refl
none_busy (ready ∷ ws) h = none_busy ws λ r ws' m. h r _ (there m)
none_busy (blocked ∷ ws) h = none_busy ws λ r ws' m. h r _ (there m)
none_busy (stopped ∷ ws) h = none_busy ws λ r ws' m. h r _ (there m)
none_busy (jammed r ∷ ws) h =
    ap (λ (rs : List Request). r ∷ rs) (none_busy ws λ r ws' m. h r _ (there m))
none_busy (busy r ∷ ws) h = absurd (h r _ here)

rest-in_flight :
    (d : Dispatcher) (p : Pool) → AtRest d p → in_flight p.workers ≡ stuck_requests p.workers
rest-in_flight d p rest = none_busy p.workers λ r ws' m. rest _ (finish down m)

-- A ready worker can always go on.
ready_moves :
    (d : Dispatcher) (p : Pool)
    → AtRest d p
    → ((b : Worker) → (ws : List Worker) × Moved ready b p.workers ws)
    → ⊥
ready_moves d p rest move = elim (Option-cases (try_pop_highest_priority p.queue)) [
  | inl e ↦ rest _ (block (move blocked).1 e)
  | inr ((r, q), e) ↦ rest _ (take (move (busy r)).1 e)
]

first_blocked :
    (ws : List Worker)
    → length (stuck_requests ws) < length ws
    → All AtWork ws
    → (((b : Worker) → (ws' : List Worker) × Moved ready b ws ws') → ⊥)
    → ((r : Request) (ws' : List Worker) → Moved (busy r) ready ws ws' → ⊥)
    → (r : Request) → (ws' : List Worker) × Moved blocked (busy r) ws ws'
first_blocked [] some_worker at_work not_ready not_busy r = absurd (omega arith)
first_blocked (ready ∷ ws) some_worker at_work not_ready not_busy r =
    absurd (not_ready λ b. (b ∷ ws, here))
first_blocked (blocked ∷ ws) some_worker at_work not_ready not_busy r = (busy r ∷ ws, here)
first_blocked (stopped ∷ ws) some_worker at_work not_ready not_busy r = absurd (at_work.0 tt)
first_blocked (jammed x ∷ ws) some_worker at_work not_ready not_busy r =
    let (ws', m) =
      first_blocked ws (omega arith) at_work.1
        (λ move. not_ready λ b. let (ws', m) = move b in (jammed x ∷ ws', there m))
        (λ y ws' m. not_busy y (jammed x ∷ ws') (there m)) r in
    (jammed x ∷ ws', there m)
first_blocked (busy x ∷ ws) some_worker at_work not_ready not_busy r =
    absurd (not_busy x (ready ∷ ws) here)

nothing_ready :
    (xs : List Request) (n : ℕ)
    → ((r : Request) (c : Chan Request) → take_front xs n ≡ some (r, c) → ⊥)
    → xs ≡ []
nothing_ready [] n h = refl
nothing_ready (x ∷ xs) n h = absurd (h x _ refl)

-- At rest, a blocked worker has an empty lane in front of it.
lane_empty :
    (d : Dispatcher) (p : Pool) (from : Priority)
    → AtRest d p
    → ((r : Request) → (ws : List Worker) × Moved blocked (busy r) p.workers ws)
    → (lane p.queue from).buf ≡ []
unfolding try_receive
lane_empty d p from rest move =
    nothing_ready (lane p.queue from).buf (lane p.queue from).cap
      λ r c e. rest _ (wake from (move r).1 e)

rest-pending :
    (d : Dispatcher) (p : Pool)
    → AtRest d p
    → length (stuck_requests p.workers) < length p.workers
    → All AtWork p.workers
    → pending p.queue ≡ []
rest-pending d p rest some_worker at_work =
    let waits =
      first_blocked p.workers some_worker at_work (ready_moves d p rest)
        (λ r ws' m. rest _ (finish down m)) in
    rw
      (
        lane_empty d p high rest waits,
        lane_empty d p normal rest waits,
        lane_empty d p low rest waits,
      )
      refl

-- In a pool that was not told to stop and in which fewer workers than the concurrency are blocked for
-- good in streamBody, when no worker can go on, the requests that the queue accepted are, up to order,
-- those that got a result and those of the blocked workers, in any interleaving.
pub Reach-drained :
    (d : Dispatcher) (n : ℕ) {p : Pool}
    → Reach d (new n) p
    → length (stuck_requests p.workers) < to_ℕ d.concurrency
    → p.cancelled ≡ false
    → AtRest d p
    → Perm p.accepted (requests_of p.sent ++ stuck_requests p.workers)
Reach-drained d n {p} reach some_free on rest =
    let staffed = Reach-IsStaffed d reach in
    let free : length (stuck_requests p.workers) < length p.workers =
      omega (arith, staffed.count, some_free) in
    let left : in_flight p.workers ++ pending p.queue ≡ stuck_requests p.workers =
      rw (rest-in_flight d p rest, rest-pending d p rest free (staffed.running on))
        (append-nil (stuck_requests p.workers)) in
    subst (λ (xs : List Request). Perm p.accepted (requests_of p.sent ++ xs)) left
      (Reach-IsConserved d n reach)
