-- ===== src/Queue/Refinement.antt =====
-- queue.go against its contract: one list of the waiting requests in the order of their arrival. A
-- push is refused if as many requests of its priority wait as a lane holds; a pop takes the oldest
-- request of the highest priority that waits.
use mathlib.Core.List.{append-nil}
use llm_inference_control_pl.Common.{
  ℕ, ◌≡◌, refl, sym, ap, inl, inr, Bool, true, false, List, [], ◌∷◌, ◌++◌, Option, none, some,
  arith, select, tally, length-select, Bool-cases, Option-cases, ltb, lt→ltb, le→ltb, if◌then◌else◌,
}
use llm_inference_control_pl.Queue.{
  Priority, high, normal, low, same_priority, Request, Queue, new, lane, len_by_priority, try_push,
  try_pop_highest_priority,
}
use llm_inference_control_pl.Queue.Order
use llm_inference_control_pl.Queue.Order.{try_push-eq_pushed}
use llm_inference_control_pl.Queue.Bounds.{try_push-PushOutcome}
use llm_inference_control_pl.Queue.History.{Op, push, pop}

abbrev of_priority : Priority → Request → Bool
of_priority p r = same_priority r.priority p

-- TryPush on the list, with `n` slots for a priority.
abbrev push_arrival : ℕ → List Request → Request → List Request × Bool
push_arrival n xs r =
    if ltb (tally (of_priority r.priority) xs) n then (xs ++ r ∷ [], true) else (xs, false)

abbrev behind : Request → Option (Request × List Request) → Option (Request × List Request)
behind x none = none
behind x (some (r, xs)) = some (r, x ∷ xs)

-- The oldest request of a priority, and the others.
unfoldable pub oldest : Priority → List Request → Option (Request × List Request)
oldest p [] = none
oldest p (x ∷ xs) =
    let later = oldest p xs in if of_priority p x then some (x, xs) else behind x later

abbrev or_else :
    Option (Request × List Request)
    → Option (Request × List Request)
    → Option (Request × List Request)
or_else none other = other
or_else (some found) other = some found

-- A pop of the list.
abbrev pop_arrival : List Request → Option (Request × List Request)
pop_arrival xs = or_else (oldest high xs) (or_else (oldest normal xs) (oldest low xs))

-- What an operation answers.
pub data Output : Type 0 where
  pushed : Bool → Output
  popped : Option Request → Output

-- The answers of the list.
abbrev after_arrival_push : (List Request → List Output) → List Request × Bool → List Output
after_arrival_push next (xs, accepted) = pushed accepted ∷ next xs

abbrev after_arrival_pop :
    (List Request → List Output) → List Request → Option (Request × List Request) → List Output
after_arrival_pop next xs none = popped none ∷ next xs
after_arrival_pop next xs (some (r, rest)) = popped (some r) ∷ next rest

unfoldable pub run_arrivals : ℕ → List Op → List Request → List Output
run_arrivals n [] xs = []
run_arrivals n (push r ∷ ops) xs = after_arrival_push (run_arrivals n ops) (push_arrival n xs r)
run_arrivals n (pop ∷ ops) xs = after_arrival_pop (run_arrivals n ops) xs (pop_arrival xs)

-- The answers of the queue.
abbrev after_push : (Queue → List Output) → Queue × Bool → List Output
after_push next (q, accepted) = pushed accepted ∷ next q

abbrev after_pop : (Queue → List Output) → Queue → Option (Request × Queue) → List Output
after_pop next q none = popped none ∷ next q
after_pop next q (some (r, rest)) = popped (some r) ∷ next rest

unfoldable pub run_queue : List Op → Queue → List Output
run_queue [] q = []
run_queue (push r ∷ ops) q = after_push (run_queue ops) (try_push q r)
run_queue (pop ∷ ops) q = after_pop (run_queue ops) q (try_pop_highest_priority q)

-- The queue whose lanes hold the list.
abbrev lanes_of : ℕ → List Request → Queue
lanes_of n xs = record {
  high_lane = record { buf = select (of_priority high) xs; cap = n };
  normal_lane = record { buf = select (of_priority normal) xs; cap = n };
  low_lane = record { buf = select (of_priority low) xs; cap = n };
}

abbrev view : ℕ → Option (Request × List Request) → Option (Request × Queue)
view n none = none
view n (some (r, xs)) = some (r, lanes_of n xs)

select_last :
    (p : Request → Bool) (xs : List Request) (r : Request)
    → select p (xs ++ r ∷ []) ≡ select p xs ++ (if p r then r ∷ [] else [])
select_last p [] r = ground arith
select_last p (x ∷ xs) r = ground (arith, select_last p xs r)

-- An accepted arrival lengthens the lane of its priority.
lanes_of-arrival :
    (n : ℕ) (xs : List Request) (r : Request) (p : Priority)
    → r.priority ≡ p
    → lanes_of n (xs ++ r ∷ []) ≡ Order.pushed (lanes_of n xs) r p
lanes_of-arrival n xs r high e = simp (select_last, e, append-nil)
lanes_of-arrival n xs r normal e = simp (select_last, e, append-nil)
lanes_of-arrival n xs r low e = simp (select_last, e, append-nil)

count_lane :
    (n : ℕ) (xs : List Request) (p : Priority)
    → (len_by_priority (lanes_of n xs) p ≡ tally (of_priority p) xs)
      × ((lane (lanes_of n xs) p).cap ≡ n)
unfolding len_by_priority
count_lane n xs high = (length-select (of_priority high) xs, refl)
count_lane n xs normal = (length-select (of_priority normal) xs, refl)
count_lane n xs low = (length-select (of_priority low) xs, refl)

push_refines :
    (n : ℕ) (xs : List Request) (r : Request)
    → try_push (lanes_of n xs) r ≡ (lanes_of n (push_arrival n xs r).0, (push_arrival n xs r).1)
push_refines n xs r =
    let (count, cap) = count_lane n xs r.priority in
    elim (try_push-PushOutcome (lanes_of n xs) r) [
      | inl (lt, accepted, _, _) ↦
          rw
            (
              lt→ltb (tally (of_priority r.priority) xs) n (omega (arith, count, cap, lt)),
              lanes_of-arrival n xs r r.priority refl,
            )
            (cc (try_push-eq_pushed (lanes_of n xs) r r.priority refl accepted, accepted))
      | inr (le, refused, same) ↦
          rw (le→ltb (tally (of_priority r.priority) xs) n (omega (arith, count, cap, le)))
            (cc (refused, same))
    ]

-- What is first in a lane is the oldest request of its priority, and the other lanes do not change.
data Found (p : Priority) (xs : List Request) : Option (Request × List Request) → Type 0 where
  nothing : select (of_priority p) xs ≡ [] → Found p xs none
  front :
      (r : Request) (rest : List Request)
      → select (of_priority p) xs ≡ r ∷ select (of_priority p) rest
      → ((q : Priority)
          → same_priority p q ≡ false
          → select (of_priority q) xs ≡ select (of_priority q) rest)
      → Found p xs (some (r, rest))

other_priority :
    (s p q : Priority)
    → same_priority s p ≡ true
    → same_priority p q ≡ false
    → same_priority s q ≡ false
other_priority s p q h k = ground arith

behind-Found :
    (p : Priority) (x : Request) (xs : List Request) (o : Option (Request × List Request))
    → of_priority p x ≡ false
    → Found p xs o
    → Found p (x ∷ xs) (behind x o)
behind-Found p x xs _ other (nothing none_left) = nothing (rw other none_left)
behind-Found p x xs _ other (front r rest first same) = front r (x ∷ rest) (rw other first) λ q ne.
    elim (Bool-cases (of_priority q x)) [
      | inl t ↦ rw t (ap (λ (ys : List Request). x ∷ ys) (same q ne))
      | inr t ↦ rw t (same q ne)
    ]

oldest-Found : (p : Priority) (xs : List Request) → Found p xs (oldest p xs)
unfolding oldest
oldest-Found p [] = nothing refl
oldest-Found p (x ∷ xs) = elim (Bool-cases (of_priority p x)) [
  | inl t ↦ rw t (front x xs (rw t refl) λ q ne. rw (other_priority x.priority p q t ne) refl)
  | inr t ↦ rw t (behind-Found p x xs (oldest p xs) t (oldest-Found p xs))
]

pop-Found :
    (n : ℕ) (xs : List Request) (hs ns ls : Option (Request × List Request))
    → Found high xs hs
    → Found normal xs ns
    → Found low xs ls
    → try_pop_highest_priority (lanes_of n xs) ≡ view n (or_else hs (or_else ns ls))
unfolding try_pop_highest_priority
pop-Found n xs _ ns ls (front r rest first same) _ _ =
    rw (first, same normal refl, same low refl) refl
pop-Found n xs _ _ ls (nothing h) (front r rest first same) _ =
    rw (sym (same high refl), h, first, same low refl) refl
pop-Found n xs _ _ _ (nothing h) (nothing k) (front r rest first same) =
    rw (sym (same high refl), sym (same normal refl), h, k, first) refl
pop-Found n xs _ _ _ (nothing h) (nothing k) (nothing l) = rw (h, k, l) refl

pop_refines :
    (n : ℕ) (xs : List Request) → try_pop_highest_priority (lanes_of n xs) ≡ view n (pop_arrival xs)
pop_refines n xs =
    pop-Found n xs (oldest high xs) (oldest normal xs) (oldest low xs) (oldest-Found high xs)
      (oldest-Found normal xs) (oldest-Found low xs)

run_refines :
    (n : ℕ) (ops : List Op) (xs : List Request)
    → run_queue ops (lanes_of n xs) ≡ run_arrivals n ops xs
unfolding run_queue run_arrivals
run_refines n [] xs = refl
run_refines n (push r ∷ ops) xs = rw (push_refines n xs r) (
    ap (λ (os : List Output). pushed (push_arrival n xs r).1 ∷ os)
      (run_refines n ops (push_arrival n xs r).0))
run_refines n (pop ∷ ops) xs = rw (pop_refines n xs) (elim (Option-cases (pop_arrival xs)) [
  | inl e ↦ rw e (ap (λ (os : List Output). popped none ∷ os) (run_refines n ops xs))
  | inr ((r, rest), e) ↦
      rw e (ap (λ (os : List Output). popped (some r) ∷ os) (run_refines n ops rest))
])

-- A new queue with n slots a lane gives to any pushes and fast-path pops the same answers as the
-- list of the waiting requests in the order of their arrival, which gives out the oldest request of
-- the highest priority and refuses a push when n requests of that priority wait.
pub run_queue-refines : (n : ℕ) (ops : List Op) → run_queue ops (new n) ≡ run_arrivals n ops []
unfolding new
run_queue-refines n ops = run_refines n ops []
