-- ===== src/Router/Choice.antt =====
-- Which worker pickWorker chooses.
use native.Mathlib.Nat.{mod-lt}
use llm_inference_control_pl.Common.{
  ℕ, ◌+◌, ◌%◌, ◌^◌, ◌≡◌, refl, sym, subst, ◌∙◌, ◌⊎◌, inl, inr, true, false, List, [], ◌∷◌, some,
  String, ℤ, int_lt, int_eq, int_lt_irrefl, int_eq_refl, int_eq-eq, length, arith, All, Elem,
  Elem-select, Elem-of_select, Elem-get_elem?, All-Elem, get_elem?-of_lt, All-select,
}
use llm_inference_control_pl.Common.Float.{
  float_lt, float_eq, float_eq_self, float_ge-of_eq, float_lt_irrefl,
}
use llm_inference_control_pl.Registry.{WorkerEntry}
use llm_inference_control_pl.Router.Minimum.{
  min_flight-le, min_flight-attained, IsPriced, min_cost-le, min_cost-attained,
}
use llm_inference_control_pl.Router.{
  pick_worker, pick_cheapest, rotate, with_flight, with_cost, min_flight, min_cost, id_of,
}

rotate-Elem :
    (counter : ℕ) (ws : List WorkerEntry) (x : WorkerEntry)
    → Elem x ws
    → (w : WorkerEntry) × ((rotate counter ws).1 ≡ some w) × Elem w ws
rotate-Elem counter [] x h = absurd h
rotate-Elem counter (v ∷ ws) x h =
    let next : ℕ = (counter + 1) % 2 ^ 64 in
    let (w, at) = get_elem?-of_lt (v ∷ ws) (next % length (v ∷ ws)) (mod-lt next (omega arith)) in
    (w, at, Elem-get_elem? w (v ∷ ws) (next % length (v ∷ ws)) at)

-- The choice among equally loaded workers.
abbrev LeastPriced : ℕ → List WorkerEntry → Type 0
LeastPriced counter ws =
    (w : WorkerEntry) × ((pick_cheapest counter ws).1 ≡ some w)
    × Elem w ws
    × ((x : WorkerEntry) → Elem x ws → float_lt x.info.cost_per_hour w.info.cost_per_hour ≡ false)

LeastPriced-of_priced :
    (counter : ℕ) (w x : WorkerEntry) (ws : List WorkerEntry)
    → All IsPriced (w ∷ x ∷ ws)
    → (z : WorkerEntry) → Elem z (w ∷ x ∷ ws)
    → z.info.cost_per_hour ≡ min_cost w.info.cost_per_hour (x ∷ ws)
    → LeastPriced counter (w ∷ x ∷ ws)
LeastPriced-of_priced counter w x ws p z there at =
    let m = min_cost w.info.cost_per_hour (x ∷ ws) in
    let all = w ∷ x ∷ ws in
    let bound = min_cost-le w.info.cost_per_hour m (x ∷ ws) p.0 p.1 refl in
    let low : All (λ y. float_lt y.info.cost_per_hour m ≡ false) all = (bound.1, bound.2) in
    let z_passes = subst (λ c. float_eq c m ≡ true) (sym at) (float_eq_self m m bound.0) in
    let test = λ (y : WorkerEntry). float_eq y.info.cost_per_hour m in
    let (v, chosen, among) =
      rotate-Elem counter (with_cost m all) z (Elem-select test z all there z_passes) in
    let (within, equal) = Elem-of_select test v all among in
    (
      v,
      chosen,
      within,
      λ y listed.
          float_ge-of_eq v.info.cost_per_hour m y.info.cost_per_hour equal
            (All-Elem _ y all low listed),
    )

pick_cheapest-LeastPriced :
    (counter : ℕ) (ws : List WorkerEntry) (z : WorkerEntry)
    → Elem z ws
    → All IsPriced ws
    → LeastPriced counter ws
pick_cheapest-LeastPriced counter [] z h p = absurd h
pick_cheapest-LeastPriced counter (w ∷ []) z h p = (w, refl, inl refl, λ y listed. only y listed)
  where
    only :
        (y : WorkerEntry) → (w ≡ y) ⊎ ⊥ → float_lt y.info.cost_per_hour w.info.cost_per_hour ≡ false
    only y (inl e) =
        subst (λ (v : WorkerEntry). float_lt v.info.cost_per_hour w.info.cost_per_hour ≡ false) e
          (float_lt_irrefl w.info.cost_per_hour)
    only y (inr e) = absurd e
pick_cheapest-LeastPriced counter (w ∷ x ∷ ws) z h p =
    elim (min_cost-attained w.info.cost_per_hour _ (x ∷ ws) refl) [
      | inl here ↦ LeastPriced-of_priced counter w x ws p w (inl refl) here
      | inr (v, there, at) ↦ LeastPriced-of_priced counter w x ws p v (inr there) at
    ]

-- `w` is one of the workers; none of them has fewer requests in flight; and none with as few costs
-- less.
pub record IsBest (flight : String → ℤ) (ws : List WorkerEntry) (w : WorkerEntry) : Type 0 where
  pub member : Elem w ws
  pub fewest : (x : WorkerEntry) → Elem x ws → int_lt (flight (id_of x)) (flight (id_of w)) ≡ false
  pub cheapest :
      (x : WorkerEntry)
      → Elem x ws
      → flight (id_of x) ≡ flight (id_of w)
      → float_lt x.info.cost_per_hour w.info.cost_per_hour ≡ false

with_flight-IsBest :
    (flight : String → ℤ) (counter : ℕ) (ws : List WorkerEntry) (least : ℤ) (z : WorkerEntry)
    → All (λ w. int_lt (flight (id_of w)) least ≡ false) ws
    → All IsPriced ws
    → Elem z ws
    → flight (id_of z) ≡ least
    → (w : WorkerEntry) × ((pick_cheapest counter (with_flight flight least ws)).1 ≡ some w)
      × IsBest flight ws w
with_flight-IsBest flight counter ws least z low p there at =
    let test = λ (w : WorkerEntry). int_eq (flight (id_of w)) least in
    let z_passes = subst (λ n. int_eq n least ≡ true) (sym at) (int_eq_refl least) in
    let (w, chosen, among, cheap) =
      pick_cheapest-LeastPriced counter (with_flight flight least ws) z
        (Elem-select test z ws there z_passes) (All-select IsPriced test ws p) in
    let (within, passes) = Elem-of_select test w ws among in
    let equal = int_eq-eq (flight (id_of w)) least passes in
    (
      w,
      chosen,
      record {
        member = within;
        fewest = λ x listed.
            subst (λ n. int_lt (flight (id_of x)) n ≡ false) (sym equal)
              (All-Elem _ x ws low listed);
        cheapest = λ x listed same. cheap x (
            Elem-select test x ws listed
              (subst (λ n. int_eq n least ≡ true) (sym (same ∙ equal)) (int_eq_refl least)));
      },
    )

-- If the costs are numbers and no count changes while pickWorker reads them, it chooses from a list that has a worker a member with the
-- fewest requests in flight and, among those, the least cost.
pub pick_worker-IsBest :
    (flight : String → ℤ) (counter : ℕ) (w : WorkerEntry) (ws : List WorkerEntry)
    → All IsPriced (w ∷ ws)
    → (best : WorkerEntry) × ((pick_worker flight flight counter (w ∷ ws)).1 ≡ some best)
      × IsBest flight (w ∷ ws) best
unfolding pick_worker
pick_worker-IsBest flight counter w [] p =
    (w, refl, record { member = inl refl; fewest = fewest; cheapest = cheapest })
  where
    fewest : (y : WorkerEntry) → (w ≡ y) ⊎ ⊥ → int_lt (flight (id_of y)) (flight (id_of w)) ≡ false
    fewest y (inl e) =
        subst (λ (v : WorkerEntry). int_lt (flight (id_of v)) (flight (id_of w)) ≡ false) e
          (int_lt_irrefl (flight (id_of w)))
    fewest y (inr e) = absurd e

    cheapest :
        (y : WorkerEntry)
        → (w ≡ y) ⊎ ⊥
        → flight (id_of y) ≡ flight (id_of w)
        → float_lt y.info.cost_per_hour w.info.cost_per_hour ≡ false
    cheapest y (inl e) same =
        subst (λ (v : WorkerEntry). float_lt v.info.cost_per_hour w.info.cost_per_hour ≡ false) e
          (float_lt_irrefl w.info.cost_per_hour)
    cheapest y (inr e) same = absurd e
pick_worker-IsBest flight counter w (x ∷ ws) p =
    let least = min_flight flight (flight (id_of w)) (x ∷ ws) in
    let low = min_flight-le flight (flight (id_of w)) least (x ∷ ws) refl in
    elim (min_flight-attained flight (flight (id_of w)) least (x ∷ ws) refl) [
      | inl here ↦ with_flight-IsBest flight counter (w ∷ x ∷ ws) least w low p (inl refl) here
      | inr (v, there, at) ↦
          with_flight-IsBest flight counter (w ∷ x ∷ ws) least v low p (inr there) at
    ]
