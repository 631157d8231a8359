-- ===== src/Registry/Models.antt =====
-- ModelsServed of registry.go against a count over the fleet.
use llm_inference_control_pl.Common.{
  ℕ, ◌+◌, ◌<◌, ◌≡◌, refl, sym, ap, inl, inr, ◌↔◌, Bool, ◌&&◌, List, [], ◌∷◌, some, String, str_eq,
  Assoc, lookup, insert, values, IsMap, insert-IsMap, lookup-insert, arith, if◌then◌else◌, eq_iff,
  eq_refl, Bool-cases, select, tally, exists_in, All, Elem, All-Elem, All-map, Absent-ne, ◌∙◌, ltb,
}
use llm_inference_control_pl.Registry.{WorkerEntry, Registry}
use llm_inference_control_pl.Registry.Queries.{
  is_healthy, has_model, healthy_workers_for_model, ModelStat, Counts, or_zero, bump, count_models,
  count_workers, stat_list, models_served,
}

-- How often a worker lists a model, and how often a fleet does; `healthy` leaves out the others.
abbrev pub listed : String → WorkerEntry → ℕ
listed model e = tally (λ m. str_eq m model) e.info.models_loaded

abbrev pub fleet_listed : String → List WorkerEntry → ℕ
fleet_listed model [] = 0
fleet_listed model (e ∷ es) = listed model e + fleet_listed model es

abbrev pub healthy_listed : String → List WorkerEntry → ℕ
healthy_listed model [] = 0
healthy_listed model (e ∷ es) =
    (if is_healthy e.state then listed model e else 0) + healthy_listed model es

module _ (model : String) where
  total_of : Assoc Counts → ℕ
  total_of m = (or_zero (lookup model m)).total

  healthy_of : Assoc Counts → ℕ
  healthy_of m = (or_zero (lookup model m)).healthy

  count_models-lookup :
      (healthy : Bool) (models : List String) (m : Assoc Counts)
      → (total_of (count_models healthy models m) ≡ total_of m + tally (λ x. str_eq x model) models)
        × (healthy_of (count_models healthy models m)
            ≡ healthy_of m + (if healthy then tally (λ x. str_eq x model) models else 0))
  unfolding count_models total_of healthy_of
  count_models-lookup healthy [] m = ground arith
  count_models-lookup healthy (x ∷ xs) m =
      let c = bump healthy (or_zero (lookup x m)) in
      ground (
        arith,
        count_models-lookup healthy xs (insert x c m),
        lookup-insert x model c m,
        eq_iff x model,
        ap (λ (s : String). lookup s m) {x = x} {y = model},
      )

  count_workers-lookup :
      (es : List WorkerEntry) (m : Assoc Counts)
      → (total_of (count_workers es m) ≡ total_of m + fleet_listed model es)
        × (healthy_of (count_workers es m) ≡ healthy_of m + healthy_listed model es)
  unfolding count_workers
  count_workers-lookup [] m = ground arith
  count_workers-lookup (e ∷ es) m =
      let m' = count_models (is_healthy e.state) e.info.models_loaded m in
      ground (
        arith,
        count_workers-lookup es m',
        count_models-lookup (is_healthy e.state) e.info.models_loaded m,
      )

count_models-IsMap :
    (healthy : Bool) (models : List String) (m : Assoc Counts)
    → IsMap m
    → IsMap (count_models healthy models m)
unfolding count_models
count_models-IsMap healthy [] m h = h
count_models-IsMap healthy (x ∷ xs) m h = count_models-IsMap healthy xs _ (insert-IsMap x _ m h)

count_workers-IsMap :
    (es : List WorkerEntry) (m : Assoc Counts) → IsMap m → IsMap (count_workers es m)
unfolding count_workers
count_workers-IsMap [] m h = h
count_workers-IsMap (e ∷ es) m h =
    count_workers-IsMap es _ (count_models-IsMap (is_healthy e.state) e.info.models_loaded m h)

stat_list-lookup :
    (m n : Assoc Counts)
    → IsMap m
    → ((k : String) (c : Counts) → lookup k m ≡ some c → lookup k n ≡ some c)
    → All
        (λ s.
          lookup s.model n ≡ some (record { total = s.total_workers; healthy = s.healthy_workers }))
        (stat_list m)
unfolding stat_list
stat_list-lookup [] n h sub = tt
stat_list-lookup ((j, c) ∷ m) n h sub = (
  sub j c (unfold lookup in ground (arith, eq_refl j)),
  stat_list-lookup m n h.1
      (λ k d found. sub k d (unfold lookup in ground (arith, Absent-ne j k d m h.0 found))),
)

stat_of :
    (model : String) (m : Assoc Counts)
    → 0 < total_of model m
    → (s : ModelStat) × Elem s (stat_list m) × (s.model ≡ model)
unfolding stat_list total_of lookup
stat_of model [] h = absurd (omega arith)
stat_of model ((j, c) ∷ m) h = elim (Bool-cases (str_eq j model)) [
  | inl e ↦ (_, inl refl, (eq_iff j model).0 e)
  | inr e ↦ let (s, there, at) = stat_of model m (ground arith) in (s, inr there, at)
]

-- Each figure of ModelsServed is the number of times that all workers, or the READY and BUSY ones,
-- list the model.
pub models_served_exact :
    (r : Registry)
    → All
        (λ s.
          (s.total_workers ≡ fleet_listed s.model (values r.workers))
          × (s.healthy_workers ≡ healthy_listed s.model (values r.workers)))
        (models_served r)
unfolding models_served total_of healthy_of lookup
models_served_exact r =
    All-map _ _ (stat_list (count_workers (values r.workers) []))
      (λ s found. ground (arith, count_workers-lookup s.model (values r.workers) []))
      (stat_list-lookup _ _ (count_workers-IsMap (values r.workers) [] tt) (λ k c h. h))

-- ModelsServed has a figure for every model that some worker lists.
pub models_served_complete :
    (r : Registry) (model : String)
    → 0 < fleet_listed model (values r.workers)
    → (s : ModelStat) × Elem s (models_served r) × (s.model ≡ model)
unfolding models_served total_of lookup
models_served_complete r model h =
    stat_of model (count_workers (values r.workers) [])
      (ground (arith, count_workers-lookup model (values r.workers) []))

listed-pos :
    (model : String) (xs : List String)
    → exists_in (λ m. str_eq m model) xs ≡ ltb 0 (tally (λ m. str_eq m model) xs)
listed-pos model [] = refl
listed-pos model (x ∷ xs) = ground (arith, listed-pos model xs)

no_healthy :
    (model : String) (es : List WorkerEntry)
    → healthy_listed model es ≡ 0
    → select (λ e. is_healthy e.state && has_model model e) es ≡ []
no_healthy model [] h = refl
no_healthy model (e ∷ es) h =
    ground (arith, no_healthy model es, listed-pos model e.info.models_loaded)

some_healthy :
    (model : String) (es : List WorkerEntry)
    → select (λ e. is_healthy e.state && has_model model e) es ≡ []
    → healthy_listed model es ≡ 0
some_healthy model [] h = refl
some_healthy model (e ∷ es) h =
    ground (arith, some_healthy model es, listed-pos model e.info.models_loaded)

-- ModelsServed shows a model without healthy workers exactly when HealthyWorkersForModel returns
-- none for it.
pub models_served-agrees_with_router :
    (r : Registry) (s : ModelStat)
    → Elem s (models_served r)
    → (s.healthy_workers ≡ 0) ↔ (healthy_workers_for_model s.model r ≡ [])
unfolding healthy_workers_for_model
models_served-agrees_with_router r s h =
    let figures = All-Elem _ s (models_served r) (models_served_exact r) h in
    (
      λ z. no_healthy s.model (values r.workers) (sym figures.1 ∙ z),
      λ z. figures.1 ∙ some_healthy s.model (values r.workers) z,
    )
