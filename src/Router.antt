-- ===== src/Router.antt =====
-- control-plane/router/router.go: the choice of a worker and the in-flight counters. The handler is
-- in Router/Handler.antt. The atomic counters are steps of their own on the router's state.
pub mod Minimum
pub mod Choice
pub mod Handler
pub mod Healthy
pub mod Untried
pub mod Retry
pub mod Balance
pub mod Unpriced
pub mod Unsteady
mod Examples
use llm_inference_control_pl.Common.{
  ℕ, ◌+◌, ◌%◌, ◌^◌, Bool, List, [], ◌∷◌, Option, none, some, String, Assoc, lookup, insert, ℤ, pos,
  increment, decrement, int_lt, int_eq, select, length, get_elem?, if◌then◌else◌,
}
use llm_inference_control_pl.Common.Float.{Float64, float_lt, float_eq}
use llm_inference_control_pl.Registry.{WorkerEntry}

-- `hooked` is what the request hook was called with, latest first; it is called if it is set.
pub record Router : Type 0 where
  pub counter : ℕ  -- uint64
  pub in_flight : Assoc ℤ  -- int64
  pub hook_set : Bool
  pub hooked : List (String × String)

unfoldable pub new : Bool → Router
new hook_set = record { counter = 0; in_flight = []; hook_set = hook_set; hooked = [] }

-- SetRequestHook
unfoldable pub set_request_hook : Bool → Router → Router
set_request_hook hook_set r = record r { hook_set = hook_set }

-- The value of a counter; one that is missing reads 0.
abbrev pub or_none : Option ℤ → ℤ
or_none none = pos 0
or_none (some n) = n

-- getInFlight
unfoldable pub get_in_flight : Assoc ℤ → String → ℤ
get_in_flight m id = or_none (lookup id m)

-- inc: counter64 makes the counter if it is missing
unfoldable pub inc : String → Router → Router
inc id r = record r {
  in_flight = insert id (increment (or_none (lookup id r.in_flight))) r.in_flight;
}

-- dec
unfoldable pub dec : String → Router → Router
dec id r = record r {
  in_flight = insert id (decrement (or_none (lookup id r.in_flight))) r.in_flight;
}

-- InFlightSnapshot
unfoldable pub in_flight_snapshot : Router → Assoc ℤ
in_flight_snapshot r = r.in_flight

abbrev pub id_of : WorkerEntry → String
id_of w = w.info.worker_id

-- The loop that finds the least in-flight count, from the first worker's on.
unfoldable pub min_flight : (String → ℤ) → ℤ → List WorkerEntry → ℤ
min_flight flight m [] = m
min_flight flight m (w ∷ ws) =
    min_flight flight (if int_lt (flight (id_of w)) m then flight (id_of w) else m) ws

-- The loop that finds the least cost.
unfoldable pub min_cost : Float64 → List WorkerEntry → Float64
min_cost m [] = m
min_cost m (w ∷ ws) =
    min_cost (if float_lt w.info.cost_per_hour m then w.info.cost_per_hour else m) ws

abbrev pub with_flight : (String → ℤ) → ℤ → List WorkerEntry → List WorkerEntry
with_flight flight m = select (λ w. int_eq (flight (id_of w)) m)

abbrev pub with_cost : Float64 → List WorkerEntry → List WorkerEntry
with_cost m = select (λ w. float_eq w.info.cost_per_hour m)

-- counter.Add(1) % len(cheapest), with the panic of a division by zero as none
abbrev pub rotate : ℕ → List WorkerEntry → ℕ × Option WorkerEntry
rotate counter [] = ((counter + 1) % 2 ^ 64, none)
rotate counter (w ∷ ws) =
    let next = (counter + 1) % 2 ^ 64 in (next, get_elem? (w ∷ ws) (next % length (w ∷ ws)))

-- Levels 2 and 3, over the workers with the least in-flight count.
abbrev pub pick_cheapest : ℕ → List WorkerEntry → ℕ × Option WorkerEntry
pick_cheapest counter [] = (counter, none)
pick_cheapest counter (w ∷ []) = (counter, some w)
pick_cheapest counter (w ∷ x ∷ ws) =
    rotate counter (with_cost (min_cost w.info.cost_per_hour (x ∷ ws)) (w ∷ x ∷ ws))

-- pickWorker: the new counter and the worker. None is a panic: an index out of range for an empty
-- list, or a division by zero. The in-flight counts are live: `first` is what the loop for the minimum
-- reads, `second` what the loop that compares with the minimum reads.
unfoldable pub pick_worker :
    (first second : String → ℤ) → ℕ → List WorkerEntry → ℕ × Option WorkerEntry
pick_worker first second counter [] = (counter, none)
pick_worker first second counter (w ∷ []) = (counter, some w)
pick_worker first second counter (w ∷ x ∷ ws) =
    pick_cheapest counter
      (with_flight second (min_flight first (first (id_of w)) (x ∷ ws)) (w ∷ x ∷ ws))
