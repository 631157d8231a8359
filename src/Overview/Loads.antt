-- ===== src/Overview/Loads.antt =====
-- The in-flight totals of listModels in control-plane/api/admin.go.
use mathlib.Core.List.{append_assoc, append-nil}
use llm_inference_control_pl.Common.{
  ℕ, zero, suc, ◌+◌, ◌≡◌, sym, ap, ◌∙◌, inl, inr, List, [], ◌∷◌, ◌++◌, map, String, str_eq, eq_iff,
  Assoc, lookup, insert, lookup-insert, ℤ, pos, add_int, add_int_assoc, add_int_zero, zero-add_int,
  tally, All, Bool-cases, arith, if◌then◌else◌,
}
use llm_inference_control_pl.Registry.{WorkerEntry, Registry}
use llm_inference_control_pl.Registry.Queries.{list_workers, ModelStat, models_served}
use llm_inference_control_pl.Router.{Router, in_flight_snapshot, get_in_flight, id_of}
use llm_inference_control_pl.Overview.Fleet.{
  or_no_ids, add_models, workers_by_model, sum_in_flight, to_model_resp, list_model_rows,
}

abbrev pub copies : ℕ → String → List String
copies zero id = []
copies (suc n) id = id ∷ copies n id

-- The ids of the workers that list a model, each as often as it does.
abbrev pub serving : String → List WorkerEntry → List String
serving m [] = []
serving m (e ∷ es) = copies (tally (λ x. str_eq x m) e.info.models_loaded) (id_of e) ++ serving m es

abbrev ids : String → Assoc (List String) → List String
ids m by_model = or_no_ids (lookup m by_model)

ids-insert :
    (m x id : String) (b : Assoc (List String))
    → ids m (insert x (ids x b ++ id ∷ []) b) ≡ ids m b ++ (if str_eq x m then id ∷ [] else [])
ids-insert m x id b = elim (Bool-cases (str_eq x m)) [
  | inl t ↦
      let same : x ≡ m = (eq_iff x m).0 t in
      rw (lookup-insert x m (ids x b ++ id ∷ []) b, t)
        (ap (λ (y : String). ids y b ++ id ∷ []) same)
  | inr t ↦ rw (lookup-insert x m (ids x b ++ id ∷ []) b, t) (sym (append-nil (ids m b)))
]

ids-add_models :
    (m id : String) (ms : List String) (b : Assoc (List String))
    → ids m (add_models id ms b) ≡ ids m b ++ copies (tally (λ x. str_eq x m) ms) id
unfolding add_models
ids-add_models m id [] b = sym (append-nil (ids m b))
ids-add_models m id (x ∷ ms) b =
    rw (ids-add_models m id ms (insert x (ids x b ++ id ∷ []) b), ids-insert m x id b)
      (elim (Bool-cases (str_eq x m)) [
        | inl t ↦ rw t (one_more (tally (λ x'. str_eq x' m) ms))
        | inr t ↦ rw t (no_more (tally (λ x'. str_eq x' m) ms))
      ])
  where
    one_more : (n : ℕ) → (ids m b ++ id ∷ []) ++ copies n id ≡ ids m b ++ copies (1 + n) id
    one_more n =
        append_assoc (ids m b) (id ∷ []) (copies n id)
        ∙ ap (λ (k : ℕ). ids m b ++ copies k id) {x = suc n} (omega arith)

    no_more : (n : ℕ) → (ids m b ++ []) ++ copies n id ≡ ids m b ++ copies (0 + n) id
    no_more n =
        ap (λ (xs : List String). xs ++ copies n id) (append-nil (ids m b))
        ∙ ap (λ (k : ℕ). ids m b ++ copies k id) {x = n} (omega arith)

ids-workers_by_model :
    (m : String) (es : List WorkerEntry) (b : Assoc (List String))
    → ids m (workers_by_model es b) ≡ ids m b ++ serving m es
unfolding workers_by_model
ids-workers_by_model m [] b = sym (append-nil (ids m b))
ids-workers_by_model m (e ∷ es) b =
    rw
      (
        ids-workers_by_model m es (add_models (id_of e) e.info.models_loaded b),
        ids-add_models m (id_of e) e.info.models_loaded b,
      )
      (append_assoc (ids m b) _ (serving m es))

-- The sum of the counts of some workers.
abbrev pub total_of : (String → ℤ) → List String → ℤ
total_of count [] = pos 0
total_of count (id ∷ rest) = add_int (count id) (total_of count rest)

sum-total_of :
    (in_flight : Assoc ℤ) (xs : List String) (start : ℤ)
    → sum_in_flight in_flight xs start ≡ add_int start (total_of (get_in_flight in_flight) xs)
unfolding sum_in_flight
sum-total_of in_flight [] start = sym (add_int_zero start)
sum-total_of in_flight (id ∷ xs) start =
    sum-total_of in_flight xs (add_int start (get_in_flight in_flight id))
    ∙ add_int_assoc start (get_in_flight in_flight id) (total_of (get_in_flight in_flight) xs)

rows-total :
    (in_flight : Assoc ℤ) (by_model : Assoc (List String)) (es : List WorkerEntry)
    → ((m : String) → ids m by_model ≡ serving m es)
    → (stats : List ModelStat)
    → All
        (λ row. row.total_in_flight ≡ total_of (get_in_flight in_flight) (serving row.model es))
        (map (to_model_resp in_flight by_model) stats)
rows-total in_flight by_model es h [] = tt
rows-total in_flight by_model es h (s ∷ stats) = (
  ap (λ (xs : List String). sum_in_flight in_flight xs (pos 0)) (h s.model)
      ∙ sum-total_of in_flight (serving s.model es) (pos 0)
      ∙ zero-add_int _,
  rows-total in_flight by_model es h stats,
)

-- The in-flight total of a model is the sum of the in-flight counts of the workers that list it, each
-- counted as often as it lists the model.
pub list_model_rows-total :
    (r : Registry) (rtr : Router)
    → All
        (λ row.
          row.total_in_flight
          ≡ total_of (get_in_flight rtr.in_flight) (serving row.model (list_workers r)))
        (list_model_rows r rtr)
unfolding list_model_rows lookup in_flight_snapshot
list_model_rows-total r rtr =
    rows-total rtr.in_flight (workers_by_model (list_workers r) []) (list_workers r)
      (λ m. ids-workers_by_model m (list_workers r) []) (models_served r)
