-- ===== src/Router/Retry.antt =====
-- The retry loop of handleInference: which workers are tried, and what the client gets.
use llm_inference_control_pl.Common.{
  ℕ, zero, suc, ◌+◌, ◌≤◌, ◌<◌, ◌≡◌, refl, sym, subst, Bool, true, false, not, List, [], ◌∷◌, some,
  String, arith, All, Elem, length, min, All-select, Elem-of_select, ap, insert,
}
use mathlib.Core.Path.{fun_ext}
use llm_inference_control_pl.Common.Http.{HttpRequest, bytes}
use llm_inference_control_pl.Registry.{WorkerEntry}
use llm_inference_control_pl.Router.{Router, id_of, pick_worker}
use llm_inference_control_pl.Router.Minimum.{IsPriced}
use llm_inference_control_pl.Router.Choice.{pick_worker-IsBest}
use llm_inference_control_pl.Router.Handler.{
  Upstream, unreachable, answers, proxy, World, first_counts, second_counts, Served, tried, untried,
  settle, all_failed, try_candidates, attempt_loop,
}
use llm_inference_control_pl.Router.Untried.{length-untried}
use llm_inference_control_pl.Registry.Catalog.{IsFleet}

-- Each of the workers was asked once, and could not be reached.
abbrev IsFailing : List (String × Upstream) → Type 0
IsFailing [] = Unit {0}
IsFailing (a ∷ log) = (a.1 ≡ unreachable) × (tried a.0 log ≡ false) × IsFailing log

-- How a request ends, if `limit` attempts may be made: every attempt failed to reach its worker and
-- the client gets the 502, or the last attempt reached a worker, whose answer the client gets.
pub data Concludes (limit : ℕ) (s : Served) : Type 0 where
  exhausted :
      s.response ≡ some all_failed → IsFailing s.log → length s.log ≡ limit → Concludes limit s
  relayed :
      (id : String) (status : ℕ) (content_type : String) (body : List ℕ) (copied : Bool)
      (rest : List (String × Upstream))
      → s.log ≡ (id, answers status content_type body copied) ∷ rest
      → s.response
        ≡ some (record {
          status = status;
          headers = ("Content-Type", content_type) ∷ [];
          payload = bytes body;
        })
      → tried id rest ≡ false
      → IsFailing rest
      → length s.log ≤ limit
      → Concludes limit s

module _ (model : String) where
  settle-Concludes :
      (limit : ℕ) (id : String) (answer : Upstream) (log : List (String × Upstream)) (r : Router)
      (next : List (String × Upstream) → Router → Served)
      → tried id log ≡ false
      → IsFailing log
      → length log < limit
      → (answer ≡ unreachable → Concludes limit (next ((id, answer) ∷ log) r))
      → Concludes limit (settle model (proxy answer) ((id, answer) ∷ log) r next)
  unfolding proxy insert
  settle-Concludes limit id unreachable log r next once un short go = go refl
  settle-Concludes limit id (answers st ct b true) log r next once un short go =
      relayed id st ct b true log refl refl once un (omega arith)
  settle-Concludes limit id (answers st ct b false) log r next once un short go =
      relayed id st ct b false log refl refl once un (omega arith)

not-true : (b : Bool) → not b ≡ true → b ≡ false
not-true b h = ground arith

-- Both loops of pickWorker read the same counts.
abbrev pub IsSteady : World → Type 0
IsSteady w = (n : ℕ) (r : Router) (id : String) → second_counts w n r id ≡ first_counts w n r id

steady_pick :
    (w : World)
    → IsSteady w
    → (n : ℕ) (r : Router) (ws : List WorkerEntry)
    → pick_worker (first_counts w n r) (second_counts w n r) r.counter ws
      ≡ pick_worker (first_counts w n r) (first_counts w n r) r.counter ws
steady_pick w steady n r ws =
    ap (λ second. pick_worker (first_counts w n r) second r.counter ws) (fun_ext (steady n r))

module _ (w : World) (steady : IsSteady w) (req : HttpRequest) (model : String)
    (body : List ℕ) where
  round-Concludes :
      (limit n : ℕ) (log : List (String × Upstream)) (r : Router)
      (next : List (String × Upstream) → Router → Served) (candidates : List WorkerEntry)
      → All IsPriced candidates
      → 0 < length candidates
      → ((c : WorkerEntry) → Elem c candidates → tried (id_of c) log ≡ false)
      → IsFailing log
      → length log < limit
      → ((best : WorkerEntry) (a : String × Upstream) (r' : Router)
          → Elem best candidates
          → a.0 ≡ id_of best
          → a.1 ≡ unreachable
          → tried (id_of best) log ≡ false
          → Concludes limit (next (a ∷ log) r'))
      → Concludes limit (try_candidates w req model body n log r next candidates)
  unfolding try_candidates
  round-Concludes limit n log r next [] priced some_left fresh un short go = absurd (omega arith)
  round-Concludes limit n log r next (c ∷ cs) priced some_left fresh un short go =
      let (best, chosen, good) = pick_worker-IsBest (first_counts w n r) r.counter c cs priced in
      rw (steady_pick w steady n r (c ∷ cs), chosen)
        (settle-Concludes model limit (id_of best) _ log _ next (fresh best good.member) un short
          (λ e. go best _ _ good.member refl e (fresh best good.member)))

  loop-Concludes :
      (limit left n : ℕ) (workers : List WorkerEntry) (log : List (String × Upstream)) (r : Router)
      → IsFleet workers
      → All IsPriced workers
      → limit ≤ length workers
      → left + length log ≡ limit
      → IsFailing log
      → Concludes limit (attempt_loop w req model body workers left n log r)
  unfolding attempt_loop
  loop-Concludes limit zero n workers log r fleet priced fits count un =
      exhausted refl un (omega arith)
  loop-Concludes limit (suc left) n workers log r fleet priced fits count un =
      round-Concludes limit n log (w.before n r)
        (attempt_loop w req model body workers left (n + 1)) (untried log workers)
        (All-select IsPriced _ workers priced) (omega (arith, length-untried log workers fleet))
        (λ c among. not-true _ (Elem-of_select _ c workers among).1) un (omega arith)
        (λ best a r' among id e once.
          loop-Concludes limit left (n + 1) workers (a ∷ log) r' fleet priced fits (omega arith)
            (e, subst (λ i. tried i log ≡ false) (sym id) once, un))

  -- If the workers have distinct ids and costs that are numbers, and no in-flight count changes
  -- between the two loops of a choice, the retry loop does not panic. It relays the status, content
  -- type and body of the one worker that could be reached, after trying only unreachable ones, or it
  -- answers 502 after as many attempts as there are workers, three at most. No worker is tried twice.
  pub attempt_loop-Concludes :
      (workers : List WorkerEntry) (r : Router)
      → IsFleet workers
      → All IsPriced workers
      → Concludes
          (min (length workers) 3)
          (attempt_loop w req model body workers (min (length workers) 3) 1 [] r)
  attempt_loop-Concludes workers r fleet priced =
      loop-Concludes (min (length workers) 3) (min (length workers) 3) 1 workers [] r fleet priced
        (omega arith) (omega arith) tt
