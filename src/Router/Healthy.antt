-- ===== src/Router/Healthy.antt =====
-- ServeHTTP and the registry: which workers a request is sent to, whatever their costs are.
use llm_inference_control_pl.Common.{
  ℕ, zero, suc, ◌+◌, ◌%◌, ◌^◌, ◌≡◌, refl, sym, subst, inl, true, List, [], ◌∷◌, Option, none, some,
  some-injective, String, lookup, ℤ, int_eq, length, arith, All, Elem, Elem-of_select,
  Elem-get_elem?,
}
use llm_inference_control_pl.Common.Float.{float_eq}
use llm_inference_control_pl.Common.Http.{HttpRequest}
use llm_inference_control_pl.Registry.{WorkerEntry, Registry}
use llm_inference_control_pl.Registry.Invariant.{Inv}
use llm_inference_control_pl.Registry.Queries.{is_healthy, has_model, healthy_workers_for_model}
use llm_inference_control_pl.Registry.Catalog.{healthy_workers-Elem}
use llm_inference_control_pl.Router.{
  Router, id_of, min_flight, min_cost, with_flight, with_cost, rotate, pick_cheapest, pick_worker,
  inc, dec,
}
use llm_inference_control_pl.Router.Handler.{
  Upstream, Proxied, proxy, World, first_counts, second_counts, Served, ask, untried, settle,
  try_chosen, try_candidates, attempt_loop, route_model, route_decoded, route_body,
  handle_inference, serve_http,
}

rotated-Elem :
    (counter : ℕ) (ws : List WorkerEntry) (w : WorkerEntry)
    → (rotate counter ws).1 ≡ some w
    → Elem w ws
rotated-Elem counter [] w h = absurd cc
rotated-Elem counter (v ∷ ws) w h =
    Elem-get_elem? w (v ∷ ws) ((counter + 1) % 2 ^ 64 % length (v ∷ ws)) h

cheapest-Elem :
    (counter : ℕ) (ws : List WorkerEntry) (w : WorkerEntry)
    → (pick_cheapest counter ws).1 ≡ some w
    → Elem w ws
cheapest-Elem counter [] w h = absurd cc
cheapest-Elem counter (v ∷ []) w h = inl (some-injective v w h)
cheapest-Elem counter (v ∷ x ∷ ws) w h =
    let least = min_cost v.info.cost_per_hour (x ∷ ws) in
    (Elem-of_select (λ y. float_eq y.info.cost_per_hour least) w (v ∷ x ∷ ws)
      (rotated-Elem counter (with_cost least (v ∷ x ∷ ws)) w h)).0

picked-Elem :
    (first second : String → ℤ) (counter : ℕ) (ws : List WorkerEntry) (w : WorkerEntry)
    → (pick_worker first second counter ws).1 ≡ some w
    → Elem w ws
unfolding pick_worker
picked-Elem first second counter [] w h = absurd cc
picked-Elem first second counter (v ∷ []) w h = inl (some-injective v w h)
picked-Elem first second counter (v ∷ x ∷ ws) w h =
    let least = min_flight first (first (id_of v)) (x ∷ ws) in
    (Elem-of_select (λ y. int_eq (second (id_of y)) least) w (v ∷ x ∷ ws)
      (cheapest-Elem counter (with_flight second least (v ∷ x ∷ ws)) w h)).0

module _ {ℓ} (P : String × Upstream → Type ℓ) (w : World) (req : HttpRequest) (model : String)
    (body : List ℕ) where
  settle-All :
      (p : Proxied) (log : List (String × Upstream)) (r : Router)
      (next : List (String × Upstream) → Router → Served)
      → All P log
      → All P (next log r).log
      → All P (settle model p log r next).log
  settle-All p log r next before after = ground arith

  chosen-All :
      (n : ℕ) (log : List (String × Upstream)) (r : Router)
      (next : List (String × Upstream) → Router → Served) (o : Option WorkerEntry)
      → All P log
      → ((c : WorkerEntry) → o ≡ some c → P (id_of c, ask w req body n c))
      → ((l : List (String × Upstream)) (s : Router) → All P l → All P (next l s).log)
      → All P (try_chosen w req model body n log r next o).log
  unfolding try_chosen
  chosen-All n log r next none before asked go = before
  chosen-All n log r next (some c) before asked go =
      let now : All P ((id_of c, ask w req body n c) ∷ log) = (asked c refl, before) in
      settle-All (proxy (ask w req body n c)) ((id_of c, ask w req body n c) ∷ log)
        (dec (id_of c) (w.during n (inc (id_of c) r))) next now (go _ _ now)

  round-All :
      (n : ℕ) (log : List (String × Upstream)) (r : Router)
      (next : List (String × Upstream) → Router → Served) (candidates : List WorkerEntry)
      → All P log
      → ((c : WorkerEntry) → Elem c candidates → P (id_of c, ask w req body n c))
      → ((l : List (String × Upstream)) (s : Router) → All P l → All P (next l s).log)
      → All P (try_candidates w req model body n log r next candidates).log
  unfolding try_candidates
  round-All n log r next [] before asked go = before
  round-All n log r next (c ∷ cs) before asked go =
      let picked = pick_worker (first_counts w n r) (second_counts w n r) r.counter (c ∷ cs) in
      chosen-All n log (record r { counter = picked.0 }) next picked.1 before
        (λ d e.
          asked d (picked-Elem (first_counts w n r) (second_counts w n r) r.counter (c ∷ cs) d e))
        go

  loop-All :
      (workers : List WorkerEntry) (left n : ℕ) (log : List (String × Upstream)) (r : Router)
      → ((c : WorkerEntry) → Elem c workers → (k : ℕ) → P (id_of c, ask w req body k c))
      → All P log
      → All P (attempt_loop w req model body workers left n log r).log
  unfolding attempt_loop
  loop-All workers zero n log r asked before = before
  loop-All workers (suc left) n log r asked before =
      round-All n log (w.before n r) (attempt_loop w req model body workers left (n + 1))
        (untried log workers) before (λ c among. asked c (Elem-of_select _ c workers among).0 n)
        (λ l s kept. loop-All workers left (n + 1) l s asked kept)

-- An attempt of the request: the worker is registered, READY or BUSY, and has the model that the
-- body names, and the answer is what came from its registered address.
pub record IsRouted (w : World) (req : HttpRequest) (reg : Registry) (a : String × Upstream)
    : Type 0 where
  pub body : List ℕ
  pub model : String
  pub entry : WorkerEntry
  pub attempt : ℕ
  pub sent : req.body ≡ some body
  pub decoded : w.decode body ≡ some model
  pub registered : lookup a.0 reg.workers ≡ some entry
  pub healthy : is_healthy entry.state ≡ true
  pub serves : has_model model entry ≡ true
  pub asked : a.1 ≡ ask w req body attempt entry

module _ (w : World) (req : HttpRequest) (reg : Registry) (v : Inv reg) (r : Router) where
  offered :
      (body : List ℕ) (model : String)
      → req.body ≡ some body
      → w.decode body ≡ some model
      → (c : WorkerEntry) → Elem c (healthy_workers_for_model model reg)
      → (k : ℕ) → IsRouted w req reg (id_of c, ask w req body k c)
  offered body model sent decoded c there k =
      let (id, at, well, has) = healthy_workers-Elem reg v model c there in
      let same : id ≡ id_of c = sym (v.entries id c at).id_matches in
      record {
        body = body;
        model = model;
        entry = c;
        attempt = k;
        sent = sent;
        decoded = decoded;
        registered = subst (λ (j : String). lookup j reg.workers ≡ some c) same at;
        healthy = well;
        serves = has;
        asked = refl;
      }

  model-IsRouted :
      (body : List ℕ) (model : String) (workers : List WorkerEntry)
      → ((c : WorkerEntry)
          → Elem c workers
          → (k : ℕ) → IsRouted w req reg (id_of c, ask w req body k c))
      → All (IsRouted w req reg) (route_model w req body model workers r).log
  model-IsRouted body model [] h = tt
  model-IsRouted body model (e ∷ es) h =
      loop-All (IsRouted w req reg) w req model body (e ∷ es) _ 1 [] r h tt

  decoded-IsRouted :
      (body : List ℕ) (o : Option String)
      → req.body ≡ some body
      → w.decode body ≡ o
      → All (IsRouted w req reg) (route_decoded w req body o reg r).log
  decoded-IsRouted body none sent decoded = tt
  decoded-IsRouted body (some model) sent decoded = ground (
    arith,
    model-IsRouted body model (healthy_workers_for_model model reg)
        (offered body model sent decoded),
  )

  body-IsRouted :
      (o : Option (List ℕ)) → req.body ≡ o → All (IsRouted w req reg) (route_body w req o reg r).log
  body-IsRouted none sent = tt
  body-IsRouted (some body) sent = decoded-IsRouted body (w.decode body) sent refl

  -- On a well-formed registry, every worker that the router asks for a request is registered, READY
  -- or BUSY, and has the model that the body names, and it is asked at the address that it
  -- registered with.
  pub serve_http-IsRouted : All (IsRouted w req reg) (serve_http w req reg r).log
  unfolding serve_http handle_inference
  serve_http-IsRouted = ground (arith, body-IsRouted req.body refl)
