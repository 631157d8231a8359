-- ===== src/Router/Unsteady.antt =====
-- pickWorker and other requests that start while it reads the in-flight counts.
use llm_inference_control_pl.Common.{
  ℕ, ◌≡◌, refl, true, false, List, [], ◌∷◌, none, String, ℤ, int_lt, int_eq, int_eq-eq, Bool-cases,
  inl, inr, subst, All,
}
use llm_inference_control_pl.Registry.{WorkerEntry}
use llm_inference_control_pl.Router.Minimum.{min_flight-le}
use llm_inference_control_pl.Router.{pick_worker, with_flight, min_flight, id_of}

abbrev Rises : (String → ℤ) → (String → ℤ) → WorkerEntry → Type 0
Rises first second w = int_lt (first (id_of w)) (second (id_of w)) ≡ true

above_ne : (least a b : ℤ) → int_lt a least ≡ false → int_lt a b ≡ true → int_eq b least ≡ false
above_ne least a b low rise = elim (Bool-cases (int_eq b least)) [
  | inl t ↦
      let here : int_lt a least ≡ true =
        subst (λ (n : ℤ). int_lt a n ≡ true) (int_eq-eq b least t) rise in
      absurd cc
  | inr t ↦ t
]

none_left :
    (first second : String → ℤ) (least : ℤ) (ws : List WorkerEntry)
    → All (λ w. int_lt (first (id_of w)) least ≡ false) ws
    → All (Rises first second) ws
    → with_flight second least ws ≡ []
none_left first second least [] low rise = refl
none_left first second least (w ∷ ws) low rise =
    rw (above_ne least (first (id_of w)) (second (id_of w)) low.0 rise.0)
      (none_left first second least ws low.1 rise.1)

-- If two or more workers are left to choose from, and other requests raise the in-flight count of each
-- of them between its two readings, pickWorker panics.
pub pick_worker_race_panics :
    (first second : String → ℤ) (counter : ℕ) (w x : WorkerEntry) (ws : List WorkerEntry)
    → All (λ y. int_lt (first (id_of y)) (second (id_of y)) ≡ true) (w ∷ x ∷ ws)
    → (pick_worker first second counter (w ∷ x ∷ ws)).1 ≡ none
unfolding pick_worker
pick_worker_race_panics first second counter w x ws rise =
    let least = min_flight first (first (id_of w)) (x ∷ ws) in
    let low = min_flight-le first (first (id_of w)) least (x ∷ ws) refl in
    rw (none_left first second least (w ∷ x ∷ ws) (low.0, low.1) rise) refl
