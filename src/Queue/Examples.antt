-- ===== src/Queue/Examples.antt =====
-- Concrete runs of the queue of queue.go.
use llm_inference_control_pl.Common.{
  ℕ, ◌≡◌, refl, true, false, List, [], ◌∷◌, ◌++◌, some, none, arith, get_elem?,
}
use llm_inference_control_pl.Queue.{
  Priority, normal, high, low, Request, Queue, new, try_push, try_pop_highest_priority, ahead_of,
}
use llm_inference_control_pl.Queue.Order.{pending, pop_many, served_after_ahead}
use llm_inference_control_pl.Queue.Refinement.{
  pushed, popped, run_queue, run_arrivals, oldest, run_queue-refines,
}
use llm_inference_control_pl.Queue.History.{Op, push, pop, step, run, start, run_conserves}
use mathlib.Core.List.{Perm}

abbrev request : ℕ → Priority → Request
request id priority = record {
  id = id;
  body = [];
  model = "m";
  priority = priority;
  enqueued_at = 0;
  key_id = "k";
  stream = false;
}

-- One high, one normal and one low request, in lanes of two slots.
abbrev mixed : Queue
mixed = record {
  high_lane = record { buf = request 1 high ∷ []; cap = 2 };
  normal_lane = record { buf = request 2 normal ∷ []; cap = 2 };
  low_lane = record { buf = request 3 low ∷ []; cap = 2 };
}

served_after_ahead_example :
    get_elem? (pop_many 3 (try_push mixed (request 4 normal)).0) (ahead_of mixed normal)
    ≡ some (request 4 normal)
unfolding try_push ahead_of
served_after_ahead_example = served_after_ahead mixed (request 4 normal) 3 refl (omega arith)

-- The place in that run: behind the high and the normal request.
ahead_of-mixed : ahead_of mixed normal ≡ 2
unfolding ahead_of
ahead_of-mixed = refl

-- One slot a lane: the third operation is refused.
abbrev busy_hour : List Op
busy_hour =
    push (request 1 low) ∷ push (request 2 high) ∷ push (request 3 high) ∷ pop ∷ pop ∷ pop ∷ []

run_conserves_example :
    Perm
      (run (start 1) busy_hour).accepted
      ((run (start 1) busy_hour).served ++ pending (run (start 1) busy_hour).queue)
run_conserves_example = run_conserves 1 busy_hour

served_in_busy_hour : (run (start 1) busy_hour).served ≡ request 1 low ∷ request 2 high ∷ []
unfolding run step new try_push try_pop_highest_priority
served_in_busy_hour = refl

abbrev mixed_rest : Queue
mixed_rest = record mixed { high_lane = record { buf = []; cap = 2 } }

run_queue-refines_example : run_queue busy_hour (new 1) ≡ run_arrivals 1 busy_hour []
run_queue-refines_example = run_queue-refines 1 busy_hour

answers_in_busy_hour :
    run_arrivals 1 busy_hour []
    ≡ pushed true
      ∷ pushed true
      ∷ pushed false
      ∷ popped (some (request 2 high))
      ∷ popped (some (request 1 low))
      ∷ popped none
      ∷ []
unfolding run_arrivals oldest
answers_in_busy_hour = refl
