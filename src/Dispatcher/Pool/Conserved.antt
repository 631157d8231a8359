-- ===== src/Dispatcher/Pool/Conserved.antt =====
-- Where the accepted requests are in the pool of dispatcher.go.
use mathlib.Core.List.{Perm, perm_middle}
use mathlib.Core.List.Perm
use llm_inference_control_pl.Common.{
  ℕ, zero, suc, to_ℕ, ◌≡◌, refl, subst, List, [], ◌∷◌, ◌++◌, map, some,
}
use llm_inference_control_pl.Common.Chan.{Chan, try_receive, take_front}
use llm_inference_control_pl.Queue.{
  Priority, high, normal, low, Request, Queue, lane, set_lane, ahead_of, new,
}
use llm_inference_control_pl.Queue.Order.{pending, Pops, try_pop-Pops, pending-try_push}
use llm_inference_control_pl.Queue.History.{insert_at-perm}
use llm_inference_control_pl.Dispatcher.{Dispatcher}
use llm_inference_control_pl.Dispatcher.Stream.{Streamed}
use llm_inference_control_pl.Dispatcher.Pool.{
  Worker, ready, blocked, stopped, busy, Pool, idle_workers, Moved, here, there, Work, take, block,
  wake, stop, finish, jam, jammed, Step, work, arrive, cancel, Reach, start, later,
}

-- The requests that are being dispatched, those of blocked sends included.
abbrev pub held : Worker → List Request → List Request
held (busy r) rs = r ∷ rs
held ready rs = rs
held blocked rs = rs
held stopped rs = rs
held (jammed r) rs = r ∷ rs

abbrev pub in_flight : List Worker → List Request
in_flight [] = []
in_flight (w ∷ ws) = held w (in_flight ws)

abbrev pub requests_of : List (Request × Streamed) → List Request
requests_of = map (λ (a : Request × Streamed). a.0)

held-perm : (w : Worker) {xs ys : List Request} → Perm xs ys → Perm (held w xs) (held w ys)
held-perm ready h = h
held-perm blocked h = h
held-perm stopped h = h
held-perm (busy r) h = Perm.cons r h
held-perm (jammed r) h = Perm.cons r h

held_swap : (v w : Worker) (xs : List Request) → Perm (held v (held w xs)) (held w (held v xs))
held_swap (busy r) (busy s) xs = Perm.swap s r xs
held_swap (busy r) (jammed s) xs = Perm.swap s r xs
held_swap (busy r) ready xs = Perm.refl _
held_swap (busy r) blocked xs = Perm.refl _
held_swap (busy r) stopped xs = Perm.refl _
held_swap (jammed r) (busy s) xs = Perm.swap s r xs
held_swap (jammed r) (jammed s) xs = Perm.swap s r xs
held_swap (jammed r) ready xs = Perm.refl _
held_swap (jammed r) blocked xs = Perm.refl _
held_swap (jammed r) stopped xs = Perm.refl _
held_swap ready w xs = Perm.refl _
held_swap blocked w xs = Perm.refl _
held_swap stopped w xs = Perm.refl _

-- The others keep what they dispatch.
Moved-in_flight :
    {a b : Worker} {ws ws' : List Worker}
    → Moved a b ws ws'
    → (rest : List Request) × Perm (in_flight ws) (held a rest) × Perm (in_flight ws') (held b rest)
Moved-in_flight (here {ws}) = (in_flight ws, Perm.refl _, Perm.refl _)
Moved-in_flight {a} {b} (there {w} m) =
    let (rest, before, after) = Moved-in_flight m in
    (
      held w rest,
      Perm.trans (held-perm w before) (held_swap w a rest),
      Perm.trans (held-perm w after) (held_swap w b rest),
    )

-- Taking a request out of the queue and giving it to a worker.
taken :
    {ws ws' : List Worker} {ps ps' : List Request} {r : Request} (a : Worker) (s : List Request)
    → ((xs : List Request) → held a xs ≡ xs)
    → Moved a (busy r) ws ws'
    → Perm ps (r ∷ ps')
    → Perm (s ++ (in_flight ws ++ ps)) (s ++ (in_flight ws' ++ ps'))
taken {ws} {ws'} {ps} {ps'} {r} a s idle m out =
    let (rest, before, after) = Moved-in_flight m in
    let front : Perm (in_flight ws ++ ps) (rest ++ r ∷ ps') =
      Perm.append (subst (Perm (in_flight ws)) (idle rest) before) out in
    Perm.append (Perm.refl s) (
      Perm.trans front
        (Perm.trans (perm_middle rest ps') (Perm.append (Perm.symm after) (Perm.refl ps'))))

-- A worker that dispatches nothing goes on dispatching nothing.
unchanged :
    {ws ws' : List Worker} (a b : Worker) (s ps : List Request)
    → ((xs : List Request) → held a xs ≡ xs)
    → ((xs : List Request) → held b xs ≡ xs)
    → Moved a b ws ws'
    → Perm (s ++ (in_flight ws ++ ps)) (s ++ (in_flight ws' ++ ps))
unchanged {ws} {ws'} a b s ps idle still m =
    let (rest, before, after) = Moved-in_flight m in
    Perm.append (Perm.refl s) (
      Perm.append
        (Perm.trans (subst (Perm (in_flight ws)) (idle rest) before)
          (Perm.symm (subst (Perm (in_flight ws')) (still rest) after)))
        (Perm.refl ps))

abbrev pub IsConserved : Pool → Type 0
IsConserved p = Perm p.accepted (requests_of p.sent ++ (in_flight p.workers ++ pending p.queue))

front_of :
    (xs : List Request) (n : ℕ) {c : Chan Request} {r : Request}
    → take_front xs n ≡ some (r, c)
    → xs ≡ r ∷ c.buf
front_of [] n h = absurd cc
front_of (x ∷ xs) n h = cc

pub receive_front :
    (c : Chan Request) {c' : Chan Request} {r : Request}
    → try_receive c ≡ some (r, c')
    → c.buf ≡ r ∷ c'.buf
unfolding try_receive
receive_front c e = front_of c.buf c.cap e

lane-pending :
    (q : Queue) (from : Priority) (r : Request) (c : Chan Request)
    → try_receive (lane q from) ≡ some (r, c)
    → Perm (pending q) (r ∷ pending (set_lane q from c))
lane-pending q high r c e = rw (receive_front q.high_lane e) (Perm.refl _)
lane-pending q normal r c e =
    rw (receive_front q.normal_lane e) (perm_middle q.high_lane.buf (c.buf ++ q.low_lane.buf))
lane-pending q low r c e = rw (receive_front q.low_lane e) (
    Perm.trans (Perm.append (Perm.refl q.high_lane.buf) (perm_middle q.normal_lane.buf c.buf))
      (perm_middle q.high_lane.buf (q.normal_lane.buf ++ c.buf)))

Work-IsConserved : (d : Dispatcher) {p p' : Pool} → Work d p p' → IsConserved p → IsConserved p'
Work-IsConserved d {p} (take {ws} {r} {q} m e) h =
    let first : pending p.queue ≡ r ∷ pending q =
      subst (Pops (pending p.queue)) e (try_pop-Pops p.queue) in
    Perm.trans h (
      taken ready (requests_of p.sent) (λ xs. refl) m
        (subst (Perm (pending p.queue)) first (Perm.refl _)))
Work-IsConserved d {p} (block m e) h =
    Perm.trans h
      (unchanged ready blocked (requests_of p.sent) (pending p.queue) (λ xs. refl) (λ xs. refl) m)
Work-IsConserved d {p} (wake {ws} {r} {c} from m e) h =
    Perm.trans h
      (taken blocked (requests_of p.sent) (λ xs. refl) m (lane-pending p.queue from r c e))
Work-IsConserved d {p} (stop m e) h =
    Perm.trans h
      (unchanged blocked stopped (requests_of p.sent) (pending p.queue) (λ xs. refl) (λ xs. refl) m)
Work-IsConserved d {p} (finish {ws} {r} w m) h =
    let s = requests_of p.sent in
    let (rest, before, after) = Moved-in_flight m in
    let moved : Perm (in_flight p.workers ++ pending p.queue)
        (r ∷ (in_flight ws ++ pending p.queue)) =
      Perm.append (Perm.trans before (Perm.cons r (Perm.symm after)))
        (Perm.refl (pending p.queue)) in
    Perm.trans h (Perm.trans (Perm.append (Perm.refl s) moved) (perm_middle s _))
Work-IsConserved d {p} (jam w m e) h =
    let (rest, before, after) = Moved-in_flight m in
    Perm.trans h (
      Perm.append (Perm.refl (requests_of p.sent))
        (Perm.append (Perm.trans before (Perm.symm after)) (Perm.refl (pending p.queue))))

Step-IsConserved : (d : Dispatcher) {p p' : Pool} → Step d p p' → IsConserved p → IsConserved p'
Step-IsConserved d (work s) h = Work-IsConserved d s h
Step-IsConserved d cancel h = h
Step-IsConserved d {p} (arrive r accepted) h =
    let s = requests_of p.sent in
    let placed = pending-try_push p.queue r accepted in
    rw placed (
      Perm.trans (Perm.cons r h) (
        Perm.trans (Perm.symm (perm_middle s _)) (
          Perm.append (Perm.refl s) (
            Perm.trans (Perm.symm (perm_middle (in_flight p.workers) (pending p.queue))) (
              Perm.append (Perm.refl (in_flight p.workers))
                (insert_at-perm (ahead_of p.queue r.priority) r (pending p.queue)))))))

idle_in_flight : (n : ℕ) → in_flight (idle_workers n) ≡ []
unfolding idle_workers
idle_in_flight zero = refl
idle_in_flight (suc n) = idle_in_flight n

-- Whatever the interleaving of the gateway's pushes, the workers' steps and the shutdown, the
-- requests that a new queue with n slots a lane accepted are, up to order, those that got a result,
-- those that a worker is dispatching and those that are pending.
pub Reach-IsConserved :
    (d : Dispatcher) (n : ℕ) {p : Pool}
    → Reach d (new n) p
    → Perm p.accepted (requests_of p.sent ++ (in_flight p.workers ++ pending p.queue))
unfolding new
Reach-IsConserved d n start = rw (idle_in_flight (to_ℕ d.concurrency)) (Perm.refl [])
Reach-IsConserved d n (later before s) = Step-IsConserved d s (Reach-IsConserved d n before)
