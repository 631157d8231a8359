-- ===== src/Queue.antt =====
-- request-plane/queue/queue.go: requests, results, and the queue with one channel for each priority.
-- `TryPush` and the fast path of `Pop` are functions on the queue. The blocking part of `Pop` is in
-- Queue/Blocking.antt.
pub mod Order
pub mod Bounds
pub mod History
pub mod Refinement
pub mod Blocking
mod Examples
use llm_inference_control_pl.Common.{
  ℕ, ◌+◌, ◌≡◌, Bool, true, false, List, [], ◌∷◌, ◌++◌, Option, none, some, String, length,
}
use llm_inference_control_pl.Common.Chan.{Chan, make_chan, try_send, try_receive}

-- `PriorityNormal` is the zero value of the Go type. No other value reaches the queue: the gateway
-- makes priorities with `parsePriority` alone.
pub data Priority : Type 0 where
  normal high low : Priority

-- Priority.String
unfoldable pub priority_string : Priority → String
priority_string high = "high"
priority_string low = "low"
priority_string normal = "normal"

-- `ResultCh` and `Chunks` are no fields here: what is sent on them is the outcome of a dispatch.
-- `id` is the number n of the text "req-n".
pub record Request : Type 0 where
  pub id : ℕ
  pub body : List ℕ
  pub model : String
  pub priority : Priority
  pub enqueued_at : ℕ
  pub key_id : String
  pub stream : Bool

-- Why a dispatch ended with an error, with what the text of the error says.
pub data Failure : Type 0 where
  rewrite_model : String → Failure
  build_request upstream_unreachable read_response : Failure

-- What is sent on `ResultCh`.
pub record Result : Type 0 where
  pub status_code : ℕ
  pub body : List ℕ
  pub err : Option Failure
  pub served_model : String
  pub streaming : Bool
  pub content_type : String

pub record Queue : Type 0 where
  pub high_lane : Chan Request
  pub normal_lane : Chan Request
  pub low_lane : Chan Request

-- q.lanes[p]
abbrev pub lane : Queue → Priority → Chan Request
lane q high = q.high_lane
lane q normal = q.normal_lane
lane q low = q.low_lane

abbrev pub set_lane : Queue → Priority → Chan Request → Queue
set_lane q high c = record q { high_lane = c }
set_lane q normal c = record q { normal_lane = c }
set_lane q low c = record q { low_lane = c }

unfoldable pub new : ℕ → Queue
new capacity_per_lane = record {
  high_lane = make_chan capacity_per_lane;
  normal_lane = make_chan capacity_per_lane;
  low_lane = make_chan capacity_per_lane;
}

abbrev keep_or_replace : Queue → Priority → Option (Chan Request) → Queue × Bool
keep_or_replace q p none = (q, false)
keep_or_replace q p (some c) = (set_lane q p c, true)

-- TryPush
unfoldable pub try_push : Queue → Request → Queue × Bool
unfolding try_send
try_push q r = keep_or_replace q r.priority (try_send r (lane q r.priority))

abbrev pub pop_order : List Priority
pop_order = high ∷ normal ∷ low ∷ []

abbrev received :
    Queue
    → Priority
    → Option (Request × Chan Request)
    → Option (Request × Queue)
    → Option (Request × Queue)
received q p none rest = rest
received q p (some (r, c)) rest = some (r, set_lane q p c)

-- The loop of tryPopHighestPriority over the lanes that are left.
try_pop_lanes : Queue → List Priority → Option (Request × Queue)
unfolding try_receive
try_pop_lanes q [] = none
try_pop_lanes q (p ∷ ps) = received q p (try_receive (lane q p)) (try_pop_lanes q ps)

-- tryPopHighestPriority
unfoldable pub try_pop_highest_priority : Queue → Option (Request × Queue)
unfolding try_pop_lanes
try_pop_highest_priority q = try_pop_lanes q pop_order

-- Len: the sum over all lanes
unfoldable pub len : Queue → ℕ
len q = length q.high_lane.buf + length q.normal_lane.buf + length q.low_lane.buf

unfoldable pub len_by_priority : Queue → Priority → ℕ
len_by_priority q p = length (lane q p).buf

abbrev pub same_priority : Priority → Priority → Bool
same_priority normal normal = true
same_priority high high = true
same_priority low low = true
same_priority _ _ = false

-- The loop of AheadOf: the first branch of the `if` is the `break`.
ahead_loop : Queue → Priority → List Priority → ℕ
ahead_loop q p [] = 0
ahead_loop q p (l ∷ ls) =
    let rest = ahead_loop q p ls in
    length (lane q l).buf + elim (same_priority l p) [ true ↦ 0 | false ↦ rest ]

-- AheadOf
unfoldable pub ahead_of : Queue → Priority → ℕ
unfolding ahead_loop
ahead_of q p = ahead_loop q p pop_order

-- Cap
unfoldable pub capacity : Queue → ℕ
capacity q = q.high_lane.cap + q.normal_lane.cap + q.low_lane.cap
