-- ===== src/Router/Unpriced.antt =====
-- pickWorker and a cost that is no number, which a worker may send in its registration.
use llm_inference_control_pl.Common.{
  ℕ, ◌≡◌, refl, ap, ◌∙◌, true, List, [], ◌∷◌, none, String, ℤ, int_lt_irrefl, int_eq_refl, All,
}
use llm_inference_control_pl.Common.Float.{Float64, is_nan, float_lt-nan, float_eq-nan}
use llm_inference_control_pl.Registry.{WorkerEntry}
use llm_inference_control_pl.Router.{
  pick_worker, pick_cheapest, rotate, with_flight, with_cost, min_flight, min_cost, id_of,
}

abbrev EquallyLoaded : (String → ℤ) → ℤ → List WorkerEntry → Type 0
EquallyLoaded flight m ws = All (λ w. flight (id_of w) ≡ m) ws

min_flight-equal :
    (flight : String → ℤ) (m : ℤ) (ws : List WorkerEntry)
    → EquallyLoaded flight m ws
    → min_flight flight m ws ≡ m
unfolding min_flight
min_flight-equal flight m [] h = refl
min_flight-equal flight m (w ∷ ws) h = rw (h.0, int_lt_irrefl m) (min_flight-equal flight m ws h.1)

with_flight-equal :
    (flight : String → ℤ) (m : ℤ) (ws : List WorkerEntry)
    → EquallyLoaded flight m ws
    → with_flight flight m ws ≡ ws
with_flight-equal flight m [] h = refl
with_flight-equal flight m (w ∷ ws) h =
    rw (h.0, int_eq_refl m)
      (ap (λ (vs : List WorkerEntry). w ∷ vs) (with_flight-equal flight m ws h.1))

min_cost-nan : (m : Float64) (ws : List WorkerEntry) → is_nan m ≡ true → min_cost m ws ≡ m
unfolding min_cost
min_cost-nan m [] h = refl
min_cost-nan m (w ∷ ws) h = rw (float_lt-nan w.info.cost_per_hour m h) (min_cost-nan m ws h)

with_cost-nan : (m : Float64) (ws : List WorkerEntry) → is_nan m ≡ true → with_cost m ws ≡ []
with_cost-nan m [] h = refl
with_cost-nan m (w ∷ ws) h = rw (float_eq-nan w.info.cost_per_hour m h) (with_cost-nan m ws h)

-- If two or more workers have equal in-flight counts and the first one has NaN as its cost,
-- pickWorker panics.
pub pick_worker_nan_panics :
    (flight : String → ℤ) (counter : ℕ) (w x : WorkerEntry) (ws : List WorkerEntry)
    → EquallyLoaded flight (flight (id_of w)) (x ∷ ws)
    → is_nan w.info.cost_per_hour ≡ true
    → (pick_worker flight flight counter (w ∷ x ∷ ws)).1 ≡ none
unfolding pick_worker
pick_worker_nan_panics flight counter w x ws h n =
    let all = w ∷ x ∷ ws in
    let cost = w.info.cost_per_hour in
    ap (λ m. (pick_cheapest counter (with_flight flight m all)).1)
      (min_flight-equal flight (flight (id_of w)) (x ∷ ws) h)
    ∙ ap (λ (l : List WorkerEntry). (pick_cheapest counter l).1)
        (with_flight-equal flight (flight (id_of w)) all (refl, h))
    ∙ ap (λ m. (rotate counter (with_cost m all)).1) (min_cost-nan cost (x ∷ ws) n)
    ∙ ap (λ (l : List WorkerEntry). (rotate counter l).1) (with_cost-nan cost all n)
