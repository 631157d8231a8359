-- ===== src/Queue/Bounds.antt =====
-- The bounds of the lanes, and when `TryPush` refuses.
use llm_inference_control_pl.Common.{
  ℕ, ◌+◌, ◌≤◌, ◌<◌, ◌≡◌, refl, true, false, List, [], ◌∷◌, Option, none, some, arith, length-append,
  ◌⊎◌,
}
use llm_inference_control_pl.Common.Chan.{Fits}
use llm_inference_control_pl.Queue.{
  Priority, high, normal, low, Request, Queue, lane, new, try_push, try_pop_highest_priority, len,
  len_by_priority, ahead_of, capacity,
}

-- No lane holds more than its capacity.
pub record IsBounded (q : Queue) : Type 0 where
  pub high_fits : Fits q.high_lane
  pub normal_fits : Fits q.normal_lane
  pub low_fits : Fits q.low_lane

pub new-IsBounded : (n : ℕ) → IsBounded (new n)
unfolding new
new-IsBounded n = record {
  high_fits = omega arith;
  normal_fits = omega arith;
  low_fits = omega arith;
}

module _ (q : Queue) (r : Request) where
  push-IsBounded : (p : Priority) → r.priority ≡ p → IsBounded q → IsBounded (try_push q r).0
  unfolding try_push
  push-IsBounded high e b = ground (arith, length-append q.high_lane.buf (r ∷ []))
  push-IsBounded normal e b = ground (arith, length-append q.normal_lane.buf (r ∷ []))
  push-IsBounded low e b = ground (arith, length-append q.low_lane.buf (r ∷ []))

  pub try_push-IsBounded : IsBounded q → IsBounded (try_push q r).0
  try_push-IsBounded = push-IsBounded r.priority refl

  capacity_push : (p : Priority) → r.priority ≡ p → capacity (try_push q r).0 ≡ capacity q
  unfolding try_push capacity
  capacity_push high e = ground arith
  capacity_push normal e = ground arith
  capacity_push low e = ground arith

  pub capacity-try_push : capacity (try_push q r).0 ≡ capacity q
  capacity-try_push = capacity_push r.priority refl

  -- What `TryPush` answers and does, at a priority.
  abbrev PushOutcome : Priority → Type 0
  PushOutcome p =
      ((len_by_priority q p < (lane q p).cap)
        × ((try_push q r).1 ≡ true)
        × (len_by_priority (try_push q r).0 p ≡ len_by_priority q p + 1)
        × (len (try_push q r).0 ≡ len q + 1))
      ⊎ (((lane q p).cap ≤ len_by_priority q p)
          × ((try_push q r).1 ≡ false)
          × ((try_push q r).0 ≡ q))

  push_outcome : (p : Priority) → r.priority ≡ p → PushOutcome p
  unfolding try_push len_by_priority len
  push_outcome high e = ground (arith, length-append q.high_lane.buf (r ∷ []))
  push_outcome normal e = ground (arith, length-append q.normal_lane.buf (r ∷ []))
  push_outcome low e = ground (arith, length-append q.low_lane.buf (r ∷ []))

  -- TryPush is refused exactly when the own lane of the request is full, and then changes nothing;
  -- otherwise that lane and the whole queue hold one request more.
  pub try_push-PushOutcome : PushOutcome r.priority
  try_push-PushOutcome = push_outcome r.priority refl

abbrev PopKeeps : Queue → Option (Request × Queue) → Type 0
PopKeeps q none = (len q ≡ 0)
PopKeeps q (some (r, q')) = (len q ≡ len q' + 1) × (capacity q' ≡ capacity q) × IsBounded q'

pop_keeps :
    (hs ns ls : List Request) (ch cn cl : ℕ)
    → let q : Queue = record {
      high_lane = record { buf = hs; cap = ch };
      normal_lane = record { buf = ns; cap = cn };
      low_lane = record { buf = ls; cap = cl };
    } in
      IsBounded q → PopKeeps q (try_pop_highest_priority q)
unfolding try_pop_highest_priority len capacity
pop_keeps (h ∷ hs) ns ls ch cn cl b = ground arith
pop_keeps [] (n ∷ ns) ls ch cn cl b = ground arith
pop_keeps [] [] (l ∷ ls) ch cn cl b = ground arith
pop_keeps [] [] [] ch cn cl b = ground arith

-- A fast-path pop finds nothing only when the queue is empty. Otherwise the queue holds one request
-- less, its capacity is the same, and every lane is still within its bound.
pub try_pop_outcome : (q : Queue) → IsBounded q → PopKeeps q (try_pop_highest_priority q)
try_pop_outcome q b =
    pop_keeps q.high_lane.buf q.normal_lane.buf q.low_lane.buf q.high_lane.cap q.normal_lane.cap
      q.low_lane.cap b

pub len-le-capacity : (q : Queue) → IsBounded q → len q ≤ capacity q
unfolding len capacity
len-le-capacity q b = ground arith

pub ahead_of_by_priority :
    (q : Queue)
    → (ahead_of q high ≤ ahead_of q normal)
      × (ahead_of q normal ≤ ahead_of q low)
      × (ahead_of q low ≡ len q)
unfolding ahead_of len
ahead_of_by_priority q = ground arith
