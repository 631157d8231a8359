-- ===== src/Registry/Catalog.antt =====
-- The read methods of registry.go against plain descriptions of the fleet.
use llm_inference_control_pl.Common.{
  &&-split, ℕ, ◌+◌, ◌≡◌, ◌⊎◌, inl, inr, ◌↔◌, ◌∙◌, refl, sym, ap, subst, Bool, true, false, ◌&&◌,
  List, [], ◌∷◌, none, some, String, str_eq, eq_iff, Assoc, IsMap, lookup, lookup-Absent, values,
  Elem-values, lookup-of_Elem, arith, if◌then◌else◌, select, tally, length, Elem, Elem-select,
  Elem-of_select, exists_in, exists_in-Elem, All, All-select, All-of_Elem, Bool-cases, Absent,
}
use llm_inference_control_pl.Registry.{
  WorkerState, starting, ready, busy, draining, dead, unrecognized, WorkerEntry, Registry,
}
use llm_inference_control_pl.Registry.Queries.{
  is_healthy, has_model, healthy_workers_for_model, worker_count, count_loop,
}
use llm_inference_control_pl.Registry.Invariant.{Inv}

-- No two workers have one id.
abbrev pub IsFleet : List WorkerEntry → Type 0
IsFleet [] = Unit {0}
IsFleet (w ∷ ws) = All (λ x. str_eq x.info.worker_id w.info.worker_id ≡ false) ws × IsFleet ws

-- Each entry stands under its id.
abbrev IsKeyed : Assoc WorkerEntry → Type 0
IsKeyed m = (k : String) (e : WorkerEntry) → lookup k m ≡ some e → e.info.worker_id ≡ k

tail-IsKeyed :
    (j : String) (v : WorkerEntry) (m : Assoc WorkerEntry)
    → Absent j m
    → IsKeyed ((j, v) ∷ m)
    → IsKeyed m
unfolding lookup
tail-IsKeyed j v m a h k e at = elim (Bool-cases (str_eq j k)) [
  | inl t ↦
      let gone : lookup k m ≡ none =
        subst (λ (i : String). lookup i m ≡ none) ((eq_iff j k).0 t) (lookup-Absent j m a) in
      absurd cc
  | inr t ↦ h k e (rw t at)
]

values-IsFleet : (m : Assoc WorkerEntry) → IsMap m → IsKeyed m → IsFleet (values m)
unfolding lookup
values-IsFleet [] distinct h = tt
values-IsFleet ((j, v) ∷ m) distinct h =
    let keyed = tail-IsKeyed j v m distinct.0 h in
    let own : v.info.worker_id ≡ j = h j v (rw ((eq_iff j j).1 refl) refl) in
    (
      All-of_Elem _ (values m) (λ x there. other keyed own x there),
      values-IsFleet m distinct.1 keyed,
    )
  where
    other :
        IsKeyed m
        → v.info.worker_id ≡ j
        → (x : WorkerEntry) → Elem x (values m)
        → str_eq x.info.worker_id v.info.worker_id ≡ false
    other keyed own x there =
        let (k, at) = lookup-of_Elem x m distinct.1 there in
        elim (Bool-cases (str_eq x.info.worker_id v.info.worker_id)) [
          | inl t ↦
              let same : k ≡ j =
                sym (keyed k x at) ∙ (eq_iff x.info.worker_id v.info.worker_id).0 t ∙ own in
              let found : lookup j m ≡ some x =
                subst (λ (i : String). lookup i m ≡ some x) same at in
              let gone = lookup-Absent j m distinct.0 in absurd cc
          | inr t ↦ t
        ]

select-IsFleet :
    (p : WorkerEntry → Bool) (ws : List WorkerEntry) → IsFleet ws → IsFleet (select p ws)
select-IsFleet p [] h = tt
select-IsFleet p (w ∷ ws) h = elim (Bool-cases (p w)) [
  | inl t ↦ rw t (All-select _ p ws h.0, select-IsFleet p ws h.1)
  | inr t ↦ rw t (select-IsFleet p ws h.1)
]

healthy_cases : (s : WorkerState) → is_healthy s ≡ true → (s ≡ ready) ⊎ (s ≡ busy)
healthy_cases ready h = inl refl
healthy_cases busy h = inr refl
healthy_cases starting h = absurd cc
healthy_cases draining h = absurd cc
healthy_cases dead h = absurd cc
healthy_cases (unrecognized n) h = absurd cc

healthy_of : (s : WorkerState) → (s ≡ ready) ⊎ (s ≡ busy) → is_healthy s ≡ true
healthy_of s (inl e) = ap is_healthy e
healthy_of s (inr e) = ap is_healthy e

listed :
    (model : String) (ms : List String) → Elem model ms → exists_in (λ m. str_eq m model) ms ≡ true
listed model [] h = absurd h
listed model (m ∷ ms) (inl e) = rw ((eq_iff m model).1 e) refl
listed model (m ∷ ms) (inr h) = rw (listed model ms h) (ground arith)

module _ (r : Registry) (v : Inv r) (model : String) where
  pub healthy_workers-Elem :
      (e : WorkerEntry)
      → Elem e (healthy_workers_for_model model r)
      → (id : String) × (lookup id r.workers ≡ some e)
        × (is_healthy e.state ≡ true)
        × (has_model model e ≡ true)
  unfolding healthy_workers_for_model
  healthy_workers-Elem e h =
      let (there, passes) =
        Elem-of_select (λ x. is_healthy x.state && has_model model x) e (values r.workers) h in
      let (id, at) = lookup-of_Elem e r.workers v.keys there in
      let (healthy, has) = &&-split _ _ passes in (id, at, healthy, has)

  -- On a well-formed registry, HealthyWorkersForModel returns no worker twice, and exactly the
  -- registered workers whose state is READY or BUSY and whose models include the model.
  pub healthy_workers_exact :
      IsFleet (healthy_workers_for_model model r)
      × ((e : WorkerEntry)
          → Elem e (healthy_workers_for_model model r) ↔ (
              (id : String) × (lookup id r.workers ≡ some e)
              × ((e.state ≡ ready) ⊎ (e.state ≡ busy))
              × Elem model e.info.models_loaded))
  unfolding healthy_workers_for_model
  healthy_workers_exact = (
    select-IsFleet _ (values r.workers)
        (values-IsFleet r.workers v.keys (λ k e at. (v.entries k e at).id_matches)),
    λ e. (found e, offered e),
  )
    where
      test : WorkerEntry → Bool
      test x = is_healthy x.state && has_model model x

      found :
          (e : WorkerEntry)
          → Elem e (select test (values r.workers))
          → (id : String) × (lookup id r.workers ≡ some e)
            × ((e.state ≡ ready) ⊎ (e.state ≡ busy))
            × Elem model e.info.models_loaded
      found e h =
          let (id, at, healthy, has) = healthy_workers-Elem e h in
          let (m, there, same) = exists_in-Elem _ e.info.models_loaded has in
          (
            id,
            at,
            healthy_cases e.state healthy,
            subst (λ (x : String). Elem x e.info.models_loaded) ((eq_iff m model).0 same) there,
          )

      offered :
          (e : WorkerEntry)
          → ((id : String) × (lookup id r.workers ≡ some e)
              × ((e.state ≡ ready) ⊎ (e.state ≡ busy))
              × Elem model e.info.models_loaded)
          → Elem e (select test (values r.workers))
      offered e (id, at, healthy, has) =
          let well = healthy_of e.state healthy in
          let lists = listed model e.info.models_loaded has in
          Elem-select test e (values r.workers) (Elem-values id e r.workers at) (ground (arith))

count_loop-eq :
    (es : List WorkerEntry) (total healthy : ℕ)
    → count_loop es total healthy
      ≡ (total + length es, healthy + tally (λ e. is_healthy e.state) es)
unfolding count_loop
count_loop-eq [] total healthy = ground arith
count_loop-eq (e ∷ es) total healthy =
    ground
      (arith, count_loop-eq es (total + 1) (if is_healthy e.state then healthy + 1 else healthy))

-- WorkerCount counts all entries, and those that are READY or BUSY.
pub worker_count-eq :
    (r : Registry)
    → worker_count r
      ≡ (length (values r.workers), tally (λ e. is_healthy e.state) (values r.workers))
unfolding worker_count
worker_count-eq r = ground (arith, count_loop-eq (values r.workers) 0 0)
