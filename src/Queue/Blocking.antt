-- ===== src/Queue/Blocking.antt =====
-- The whole of `Pop`: the fast path, then a blocking `select` over the three lanes and the context.
-- Go picks at random among the lanes that are ready when the `select` runs, and other goroutines may
-- push between the fast path and the `select`; both choices are left open.
use llm_inference_control_pl.Common.{ℕ, suc, ◌≡◌, List, [], ◌∷◌, Option, none, some, subst}
use llm_inference_control_pl.Common.Chan.{Chan, make_chan, try_receive}
use llm_inference_control_pl.Queue.{
  Priority, high, low, Request, Queue, lane, set_lane, try_push, try_pop_highest_priority,
}
use llm_inference_control_pl.Queue.Order.{pending, Pops, try_pop-Pops}

-- Pushes of other goroutines, refused ones included.
pub push_all : Queue → List Request → Queue
push_all q [] = q
push_all q (r ∷ rs) = push_all (try_push q r).0 rs

-- The results of `Pop` from a queue, with the pushes of other goroutines between the fast path and the
-- `select`, in their order: a request and the queue that is left, or none after the context was
-- cancelled.
pub data Pop (q : Queue) : List Request → Option Request → Queue → Type 0 where
  fast :
      (r : Request) (q' : Queue) → try_pop_highest_priority q ≡ some (r, q') → Pop q [] (some r) q'
  woken :
      (pushes : List Request) (filled : Queue) (p : Priority) (r : Request) (c : Chan Request)
      → try_pop_highest_priority q ≡ none
      → push_all q pushes ≡ filled
      → try_receive (lane filled p) ≡ some (r, c)
      → Pop q pushes (some r) (set_lane filled p c)
  cancelled :
      (pushes : List Request)
      → try_pop_highest_priority q ≡ none
      → Pop q pushes none (push_all q pushes)

-- On a queue that holds requests, Pop returns the first one in the order of service and leaves the
-- rest.
pub Pop-in_order :
    (q : Queue) (pushes : List Request) (q' : Queue) (o : Option Request) (r : Request)
    (rest : List Request)
    → pending q ≡ r ∷ rest
    → Pop q pushes o q'
    → (o ≡ some r) × (pending q' ≡ rest)
Pop-in_order q _ q' o r rest e (fast x q'' f) =
    let first : pending q ≡ x ∷ pending q'' = subst (Pops (pending q)) f (try_pop-Pops q) in
    (cc, cc)
Pop-in_order q _ q' o r rest e (woken pushes filled p x c none_ready _ taken) =
    let empty : pending q ≡ [] = subst (Pops (pending q)) none_ready (try_pop-Pops q) in (cc, cc)
Pop-in_order q _ q' o r rest e (cancelled pushes none_ready) =
    let empty : pending q ≡ [] = subst (Pops (pending q)) none_ready (try_pop-Pops q) in (cc, cc)

abbrev pub at_priority : Priority → Request → Request
at_priority p r = record r { priority = p }

abbrev both_waiting : ℕ → Request → Request → Queue
both_waiting n h l = record {
  high_lane = record { buf = at_priority high h ∷ []; cap = suc n };
  normal_lane = make_chan (suc n);
  low_lane = record { buf = at_priority low l ∷ []; cap = suc n };
}
