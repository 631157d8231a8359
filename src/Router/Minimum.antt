-- ===== src/Router/Minimum.antt =====
-- The two loops of pickWorker in router.go that look for a least value.
use llm_inference_control_pl.Common.{
  ◌≡◌, refl, subst, ◌⊎◌, inl, inr, false, List, [], ◌∷◌, String, ℤ, int_lt, int_lt_trans,
  int_lt-asym, int_lt_irrefl, if◌then◌else◌, All, Elem, Bool-cases,
}
use llm_inference_control_pl.Common.Float.{
  Float64, float_lt, is_nan, float_ge_trans, float_lt_irrefl, float_lt-asym,
}
use llm_inference_control_pl.Registry.{WorkerEntry}
use llm_inference_control_pl.Router.{min_flight, min_cost, id_of}

module _ (flight : String → ℤ) where
  -- No worker's count is below the result of the loop.
  pub min_flight-le :
      (m least : ℤ) (ws : List WorkerEntry)
      → min_flight flight m ws ≡ least
      → (int_lt m least ≡ false) × All (λ w. int_lt (flight (id_of w)) least ≡ false) ws
  unfolding min_flight
  min_flight-le m least [] e = (subst (λ n. int_lt m n ≡ false) e (int_lt_irrefl m), tt)
  min_flight-le m least (w ∷ ws) e = elim (Bool-cases (int_lt (flight (id_of w)) m)) [
    | inl t ↦
        let (low, rest) = min_flight-le (flight (id_of w)) least ws (rw t at e) in
        let below = int_lt-asym (flight (id_of w)) m t in
        (int_lt_trans least (flight (id_of w)) m low below, (low, rest))
    | inr t ↦
        let (low, rest) = min_flight-le m least ws (rw t at e) in
        (low, (int_lt_trans least m (flight (id_of w)) low t, rest))
  ]

  -- The result is the start or the count of a worker.
  pub min_flight-attained :
      (m least : ℤ) (ws : List WorkerEntry)
      → min_flight flight m ws ≡ least
      → (m ≡ least) ⊎ ((w : WorkerEntry) × Elem w ws × (flight (id_of w) ≡ least))
  unfolding min_flight
  min_flight-attained m least [] e = inl e
  min_flight-attained m least (w ∷ ws) e =
      elim (min_flight-attained (if int_lt (flight (id_of w)) m then flight (id_of w) else m) least
        ws e) [
          | inl here ↦ elim (Bool-cases (int_lt (flight (id_of w)) m)) [
            | inl t ↦ inr (w, inl refl, rw t at here)
            | inr t ↦ inl (rw t at here)
          ]
          | inr (x, there, at) ↦ inr (x, inr there, at)
        ]

-- The same for costs that are numbers.
abbrev pub IsPriced : WorkerEntry → Type 0
IsPriced w = is_nan w.info.cost_per_hour ≡ false

pub min_cost-le :
    (m least : Float64) (ws : List WorkerEntry)
    → is_nan m ≡ false
    → All IsPriced ws
    → min_cost m ws ≡ least
    → (is_nan least ≡ false)
      × (float_lt m least ≡ false)
      × All (λ w. float_lt w.info.cost_per_hour least ≡ false) ws
unfolding min_cost
min_cost-le m least [] n p e =
    (subst (λ x. is_nan x ≡ false) e n, subst (λ x. float_lt m x ≡ false) e (float_lt_irrefl m), tt)
min_cost-le m least (w ∷ ws) n p e = elim (Bool-cases (float_lt w.info.cost_per_hour m)) [
  | inl t ↦
      let (num, low, rest) = min_cost-le w.info.cost_per_hour least ws p.0 p.1 (rw t at e) in
      let below = float_lt-asym w.info.cost_per_hour m t in
      (num, float_ge_trans m w.info.cost_per_hour least p.0 below low n num, (low, rest))
  | inr t ↦
      let (num, low, rest) = min_cost-le m least ws n p.1 (rw t at e) in
      (num, low, (float_ge_trans w.info.cost_per_hour m least n t low p.0 num, rest))
]

pub min_cost-attained :
    (m least : Float64) (ws : List WorkerEntry)
    → min_cost m ws ≡ least
    → (m ≡ least) ⊎ ((w : WorkerEntry) × Elem w ws × (w.info.cost_per_hour ≡ least))
unfolding min_cost
min_cost-attained m least [] e = inl e
min_cost-attained m least (w ∷ ws) e =
    elim (min_cost-attained (if float_lt w.info.cost_per_hour m then w.info.cost_per_hour else m)
      least ws e) [
        | inl here ↦ elim (Bool-cases (float_lt w.info.cost_per_hour m)) [
          | inl t ↦ inr (w, inl refl, rw t at here)
          | inr t ↦ inl (rw t at here)
        ]
        | inr (x, there, at) ↦ inr (x, inr there, at)
      ]
