-- ===== src/Queue/History.antt =====
-- Histories of pushes and fast-path pops.
use mathlib.Core.List.{Perm, perm_middle}
use mathlib.Core.List.Perm
use llm_inference_control_pl.Common.{
  ℕ, zero, suc, ◌+◌, ◌≤◌, ◌≡◌, refl, Bool, true, false, List, [], ◌∷◌, ◌++◌, Option, none, some,
  arith, Option-cases, inl, inr, subst, ◌∙◌,
}
use llm_inference_control_pl.Queue.{
  Request, Queue, new, try_push, try_pop_highest_priority, len, ahead_of, capacity,
}
use llm_inference_control_pl.Queue.Order.{pending, Pops, try_pop-Pops, insert_at, pending-try_push}
use llm_inference_control_pl.Queue.Bounds.{
  IsBounded, new-IsBounded, try_push-IsBounded, try_push-PushOutcome, try_pop_outcome,
  capacity-try_push, len-le-capacity,
}

pub data Op : Type 0 where
  push : Request → Op
  pop : Op

-- The queue, the requests that were accepted, and those that were handed out; the latest first.
pub record Trace : Type 0 where
  pub queue : Queue
  pub accepted : List Request
  pub served : List Request

abbrev after_push : Trace → Request → Queue × Bool → Trace
after_push t r (q, true) = record t { queue = q; accepted = r ∷ t.accepted }
after_push t r (q, false) = record t { queue = q }

abbrev after_pop : Trace → Option (Request × Queue) → Trace
after_pop t none = t
after_pop t (some (r, q)) = record t { queue = q; served = r ∷ t.served }

unfoldable pub step : Trace → Op → Trace
step t (push r) = after_push t r (try_push t.queue r)
step t pop = after_pop t (try_pop_highest_priority t.queue)

unfoldable pub run : Trace → List Op → Trace
run t [] = t
run t (op ∷ ops) = run (step t op) ops

abbrev pub start : ℕ → Trace
start n = record { queue = new n; accepted = []; served = [] }

pub insert_at-perm : (n : ℕ) (r : Request) (xs : List Request) → Perm (r ∷ xs) (insert_at n r xs)
insert_at-perm zero r xs = Perm.refl _
insert_at-perm (suc n) r [] = Perm.refl _
insert_at-perm (suc n) r (x ∷ xs) =
    Perm.trans (Perm.swap x r xs) (Perm.cons x (insert_at-perm n r xs))

abbrev IsConserved : Trace → Type 0
IsConserved t = Perm t.accepted (t.served ++ pending t.queue)

push_result-IsConserved :
    (t : Trace) (r : Request) (n : ℕ) (q : Queue) (accepted : Bool)
    → (accepted ≡ true → pending q ≡ insert_at n r (pending t.queue))
    → (accepted ≡ false → q ≡ t.queue)
    → IsConserved t
    → IsConserved (after_push t r (q, accepted))
push_result-IsConserved t r n q true placed same h = rw (placed refl) (
    Perm.trans (Perm.cons r h) (
      Perm.trans (Perm.symm (perm_middle t.served (pending t.queue)))
        (Perm.append (Perm.refl t.served) (insert_at-perm n r (pending t.queue)))))
push_result-IsConserved t r n q false placed same h = rw (same refl) h

refused_same : (q : Queue) (r : Request) → (try_push q r).1 ≡ false → (try_push q r).0 ≡ q
refused_same q r e = elim (try_push-PushOutcome q r) [
  | inl (_, accepted, _, _) ↦ cc
  | inr (_, _, same) ↦ same
]

push-IsConserved : (t : Trace) (r : Request) → IsConserved t → IsConserved (step t (push r))
unfolding step
push-IsConserved t r =
    push_result-IsConserved t r (ahead_of t.queue r.priority) (try_push t.queue r).0
      (try_push t.queue r).1 (pending-try_push t.queue r) (refused_same t.queue r)

pop-IsConserved : (t : Trace) → IsConserved t → IsConserved (step t pop)
unfolding step
pop-IsConserved t h = elim (Option-cases (try_pop_highest_priority t.queue)) [
  | inl e ↦ rw (e, step) h
  | inr ((r, q), e) ↦
      let first : pending t.queue ≡ r ∷ pending q =
        subst (Pops (pending t.queue)) e (try_pop-Pops t.queue) in
      rw (e, step)
        (Perm.trans (subst (λ (xs : List Request). Perm t.accepted (t.served ++ xs)) first h)
          (perm_middle t.served (pending q)))
]

run-IsConserved : (t : Trace) (ops : List Op) → IsConserved t → IsConserved (run t ops)
unfolding run
run-IsConserved t [] h = h
run-IsConserved t (push r ∷ ops) h = run-IsConserved (step t (push r)) ops (push-IsConserved t r h)
run-IsConserved t (pop ∷ ops) h = run-IsConserved (step t pop) ops (pop-IsConserved t h)

start-IsConserved : (n : ℕ) → IsConserved (start n)
unfolding new
start-IsConserved n = Perm.refl []

-- After any pushes and fast-path pops on a new queue, the accepted requests are, up to order, the
-- ones handed out and the ones still pending.
pub run_conserves :
    (n : ℕ) (ops : List Op)
    → Perm
        (run (start n) ops).accepted
        ((run (start n) ops).served ++ pending (run (start n) ops).queue)
run_conserves n ops = run-IsConserved (start n) ops (start-IsConserved n)

abbrev Sized : ℕ → Trace → Type 0
Sized n t = IsBounded t.queue × (capacity t.queue ≡ n + n + n)

after_push-Sized :
    (n : ℕ) (t : Trace) (r : Request) (q : Queue) (accepted : Bool)
    → IsBounded q
    → capacity q ≡ n + n + n
    → Sized n (after_push t r (q, accepted))
after_push-Sized n t r q true b c = (b, c)
after_push-Sized n t r q false b c = (b, c)

step-Sized : (n : ℕ) (t : Trace) (op : Op) → Sized n t → Sized n (step t op)
unfolding step
step-Sized n t (push r) h =
    after_push-Sized n t r (try_push t.queue r).0 (try_push t.queue r).1
      (try_push-IsBounded t.queue r h.0) (capacity-try_push t.queue r ∙ h.1)
step-Sized n t pop h = ground (arith, try_pop_outcome t.queue h.0)

run-Sized : (n : ℕ) (t : Trace) (ops : List Op) → Sized n t → Sized n (run t ops)
unfolding run
run-Sized n t [] h = h
run-Sized n t (op ∷ ops) h = run-Sized n (step t op) ops (step-Sized n t op h)

start-Sized : (n : ℕ) → Sized n (start n)
unfolding new capacity
start-Sized n = (new-IsBounded n, refl)

-- After any pushes and fast-path pops, a queue made with n slots a lane holds at most 3 n requests,
-- and no lane holds more than its capacity.
pub run_within_capacity :
    (n : ℕ) (ops : List Op)
    → (len (run (start n) ops).queue ≤ n + n + n) × IsBounded (run (start n) ops).queue
run_within_capacity n ops =
    let sized = run-Sized n (start n) ops (start-Sized n) in
    (omega (arith, len-le-capacity _ sized.0, sized.1), sized.0)
