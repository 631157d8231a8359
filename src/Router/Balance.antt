-- ===== src/Router/Balance.antt =====
-- The in-flight counters over a request, whatever happens to it.
use llm_inference_control_pl.Common.{
  ℕ, zero, suc, ◌+◌, ◌≡◌, refl, ap, ◌∙◌, List, [], ◌∷◌, Option, none, some, String, str_eq, eq_iff,
  eq_refl, arith, if◌then◌else◌, lookup, lookup-insert, increment, decrement, decrement-increment,
}
use llm_inference_control_pl.Common.Http.{HttpRequest}
use llm_inference_control_pl.Registry.{WorkerEntry, Registry}
use llm_inference_control_pl.Registry.Queries.{healthy_workers_for_model}
use llm_inference_control_pl.Router.{Router, pick_worker, get_in_flight, inc, dec, id_of, or_none}
use llm_inference_control_pl.Router.Handler.{
  first_counts, second_counts, Upstream, Proxied, proxy, World, Served, untried, ask, notify,
  settle, try_chosen, try_candidates, attempt_loop, route_model, route_decoded, route_body,
  handle_inference, serve_http,
}

-- The router shows the same counts.
abbrev pub SameCounts : Router → Router → Type 0
SameCounts r s = (id : String) → get_in_flight s.in_flight id ≡ get_in_flight r.in_flight id

-- What other requests do meanwhile leaves the counts as they were.
pub record IsBalanced (w : World) : Type 0 where
  pub before_same : (n : ℕ) (r : Router) → SameCounts r (w.before n r)
  pub during_same : (n : ℕ) (r : Router) → SameCounts r (w.during n r)

get-inc :
    (id j : String) (r : Router)
    → get_in_flight (inc id r).in_flight j ≡ (
        if str_eq id j
        then increment (get_in_flight r.in_flight id)
        else get_in_flight r.in_flight j)
unfolding get_in_flight inc
get-inc id j r =
    ground (arith, lookup-insert id j (increment (or_none (lookup id r.in_flight))) r.in_flight)

get-dec :
    (id j : String) (r : Router)
    → get_in_flight (dec id r).in_flight j ≡ (
        if str_eq id j
        then decrement (get_in_flight r.in_flight id)
        else get_in_flight r.in_flight j)
unfolding get_in_flight dec
get-dec id j r =
    ground (arith, lookup-insert id j (decrement (or_none (lookup id r.in_flight))) r.in_flight)

dec-inc : (id : String) (r s : Router) → SameCounts (inc id r) s → SameCounts r (dec id s)
dec-inc id r s same j = ground (
  arith,
  get-dec id j s,
  get-inc id j r,
  get-inc id id r,
  same id,
  same j,
  eq_iff id j,
  eq_refl id,
  decrement-increment (get_in_flight r.in_flight id),
  ap (λ (k : String). get_in_flight r.in_flight k) {x = id} {y = j},
)

notify-SameCounts : (model result : String) (r : Router) → SameCounts r (notify model result r)
notify-SameCounts model result r id = ground arith

module _ (w : World) (quiet : IsBalanced w) (req : HttpRequest) (model : String)
    (body : List ℕ) where
  settle-SameCounts :
      (start r : Router) (p : Proxied) (log : List (String × Upstream))
      (next : List (String × Upstream) → Router → Served)
      → SameCounts start r
      → ((l : List (String × Upstream)) (s : Router)
          → SameCounts start s
          → SameCounts start (next l s).router)
      → SameCounts start (settle model p log r next).router
  settle-SameCounts start r p log next same go id = ground (
    arith,
    same id,
    go log r same id,
    notify-SameCounts model "error" r id,
    notify-SameCounts model "success" r id,
  )

  chosen-SameCounts :
      (start r : Router) (n : ℕ) (log : List (String × Upstream))
      (next : List (String × Upstream) → Router → Served) (o : Option WorkerEntry)
      → SameCounts start r
      → ((l : List (String × Upstream)) (s : Router)
          → SameCounts start s
          → SameCounts start (next l s).router)
      → SameCounts start (try_chosen w req model body n log r next o).router
  unfolding try_chosen
  chosen-SameCounts start r n log next none same go = same
  chosen-SameCounts start r n log next (some best) same go =
      settle-SameCounts start (dec (id_of best) (w.during n (inc (id_of best) r)))
        (proxy (ask w req body n best)) ((id_of best, ask w req body n best) ∷ log) next
        (λ j.
          dec-inc (id_of best) r (w.during n (inc (id_of best) r))
            (quiet.during_same n (inc (id_of best) r)) j
          ∙ same j)
        go

  round-SameCounts :
      (start r : Router) (n : ℕ) (log : List (String × Upstream))
      (next : List (String × Upstream) → Router → Served) (cs : List WorkerEntry)
      → SameCounts start r
      → ((l : List (String × Upstream)) (s : Router)
          → SameCounts start s
          → SameCounts start (next l s).router)
      → SameCounts start (try_candidates w req model body n log r next cs).router
  unfolding try_candidates
  round-SameCounts start r n log next [] same go =
      λ id. notify-SameCounts model "error" r id ∙ same id
  round-SameCounts start r n log next (c ∷ cs) same go =
      chosen-SameCounts start
        (record r {
          counter = (pick_worker (first_counts w n r) (second_counts w n r) r.counter (c ∷ cs)).0;
        })
        n log next (pick_worker (first_counts w n r) (second_counts w n r) r.counter (c ∷ cs)).1
        same go

  loop-SameCounts :
      (start r : Router) (workers : List WorkerEntry) (left n : ℕ) (log : List (String × Upstream))
      → SameCounts start r
      → SameCounts start (attempt_loop w req model body workers left n log r).router
  unfolding attempt_loop
  loop-SameCounts start r workers zero n log same =
      λ id. notify-SameCounts model "error" r id ∙ same id
  loop-SameCounts start r workers (suc left) n log same =
      round-SameCounts start (w.before n r) n log
        (attempt_loop w req model body workers left (n + 1)) (untried log workers)
        (λ j. quiet.before_same n r j ∙ same j)
        (λ l s kept. loop-SameCounts start s workers left (n + 1) l kept)

module _ (w : World) (quiet : IsBalanced w) (req : HttpRequest) (r : Router) where
  model-SameCounts :
      (body : List ℕ) (model : String) (workers : List WorkerEntry)
      → SameCounts r (route_model w req body model workers r).router
  model-SameCounts body model [] = λ id. refl
  model-SameCounts body model (e ∷ es) =
      loop-SameCounts w quiet req model body r r (e ∷ es) _ 1 [] (λ id. refl)

  decoded-SameCounts :
      (body : List ℕ) (o : Option String) (reg : Registry)
      → SameCounts r (route_decoded w req body o reg r).router
  decoded-SameCounts body none reg = λ id. refl
  decoded-SameCounts body (some model) reg =
      λ id. ground (arith, model-SameCounts body model (healthy_workers_for_model model reg) id)

  body-SameCounts :
      (o : Option (List ℕ)) (reg : Registry) → SameCounts r (route_body w req o reg r).router
  body-SameCounts none reg = λ id. refl
  body-SameCounts (some body) reg = decoded-SameCounts body (w.decode body) reg

  -- If the other requests leave the in-flight counts as they were, so does a request that the
  -- router serves, on every path: refusals, retries, broken streams and a panic of the choice.
  pub serve_http-SameCounts : (reg : Registry) → SameCounts r (serve_http w req reg r).router
  unfolding serve_http handle_inference
  serve_http-SameCounts reg id = ground (arith, body-SameCounts req.body reg id)
