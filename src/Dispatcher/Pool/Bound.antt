-- ===== src/Dispatcher/Pool/Bound.antt =====
-- How many steps the workers of the pool of dispatcher.go can take by themselves.

use llm_inference_control_pl.Common.{
  ℕ, suc, ◌+◌, ◌*◌, ◌≤◌, ◌≡◌, refl, ap, subst, List, [], ◌∷◌, ◌++◌, some, arith, length,
  length-append,
}
use llm_inference_control_pl.Common.Chan.{Chan, try_receive}
use llm_inference_control_pl.Queue.{Priority, high, normal, low, Request, Queue, lane, set_lane}
use llm_inference_control_pl.Queue.Order.{pending, Pops, try_pop-Pops}
use llm_inference_control_pl.Dispatcher.{Dispatcher}
use llm_inference_control_pl.Dispatcher.Pool.{
  Worker, ready, blocked, stopped, busy, Pool, Moved, here, there, Work, take, block, wake, stop,
  finish, jam, jammed, Works, done, next,
}
use llm_inference_control_pl.Dispatcher.Pool.Conserved.{receive_front}

-- How many steps a worker is from its end without another request.
abbrev weight : Worker → ℕ
weight stopped = 0
weight (jammed r) = 0
weight blocked = 1
weight ready = 2
weight (busy r) = 3

abbrev load : List Worker → ℕ
load [] = 0
load (w ∷ ws) = weight w + load ws

Moved-load :
    {a b : Worker} {ws ws' : List Worker}
    → Moved a b ws ws'
    → load ws' + weight a ≡ load ws + weight b
Moved-load here = omega arith
Moved-load (there m) = omega (arith, Moved-load m)

pub Moved-length : {a b : Worker} {ws ws' : List Worker} → Moved a b ws ws' → length ws' ≡ length ws
Moved-length here = refl
Moved-length (there m) = ap suc (Moved-length m)

load-le-length : (ws : List Worker) → load ws ≤ 3 * length ws
load-le-length [] = omega arith
load-le-length (ready ∷ ws) = omega (arith, load-le-length ws)
load-le-length (blocked ∷ ws) = omega (arith, load-le-length ws)
load-le-length (stopped ∷ ws) = omega (arith, load-le-length ws)
load-le-length (jammed r ∷ ws) = omega (arith, load-le-length ws)
load-le-length (busy r ∷ ws) = omega (arith, load-le-length ws)

length-pending :
    (q : Queue)
    → length (pending q)
      ≡ length q.high_lane.buf + (length q.normal_lane.buf + length q.low_lane.buf)
length-pending q = omega (
  arith,
  length-append q.high_lane.buf (q.normal_lane.buf ++ q.low_lane.buf),
  length-append q.normal_lane.buf q.low_lane.buf,
)

lane-length :
    (q : Queue) (from : Priority) (r : Request) (c : Chan Request)
    → try_receive (lane q from) ≡ some (r, c)
    → length (pending q) ≡ suc (length (pending (set_lane q from c)))
lane-length q high r c e = omega (
  arith,
  length-pending q,
  length-pending (set_lane q high c),
  ap length (receive_front q.high_lane e),
)
lane-length q normal r c e = omega (
  arith,
  length-pending q,
  length-pending (set_lane q normal c),
  ap length (receive_front q.normal_lane e),
)
lane-length q low r c e = omega (
  arith,
  length-pending q,
  length-pending (set_lane q low c),
  ap length (receive_front q.low_lane e),
)

measure : Pool → ℕ
measure p = 3 * length (pending p.queue) + load p.workers

Work-measure : (d : Dispatcher) {p p' : Pool} → Work d p p' → suc (measure p') ≤ measure p
unfolding measure
Work-measure d {p} (take {ws} {r} {q} m e) =
    let first : pending p.queue ≡ r ∷ pending q =
      subst (Pops (pending p.queue)) e (try_pop-Pops p.queue) in
    omega (arith, ap length first, Moved-load m)
Work-measure d (block m e) = omega (arith, Moved-load m)
Work-measure d {p} (wake {ws} {r} {c} from m e) =
    omega (arith, Moved-load m, lane-length p.queue from r c e)
Work-measure d (stop m e) = omega (arith, Moved-load m)
Work-measure d (finish w m) = omega (arith, Moved-load m)
Work-measure d (jam w m e) = omega (arith, Moved-load m)

Works-measure : (d : Dispatcher) {n : ℕ} {p p' : Pool} → Works d n p p' → n + measure p' ≤ measure p
Works-measure d done = omega arith
Works-measure d (next s more) = omega (arith, Work-measure d s, Works-measure d more)

-- The workers alone, in any interleaving, take at most three steps for each pending request and three
-- for each worker: the pool comes to rest.
pub Works-bound :
    (d : Dispatcher) {n : ℕ} {p p' : Pool}
    → Works d n p p'
    → n ≤ 3 * (length (pending p.queue) + length p.workers)
unfolding measure
Works-bound d {n} {p} works = omega (arith, Works-measure d works, load-le-length p.workers)
