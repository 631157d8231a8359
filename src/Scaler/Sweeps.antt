-- ===== src/Scaler/Sweeps.antt =====
-- Which workers a sweep of scaler.go removes, when nothing else changes the registry meanwhile.
use llm_inference_control_pl.Common.{
  ℕ, ◌≡◌, refl, sym, ap, subst, ◌∙◌, inl, inr, Bool, true, false, ◌&&◌, List, [], ◌∷◌, Option, none,
  some, String, str_eq, eq_iff, lookup, lookup-delete, delete-IsMap, IsMap, values, arith,
  if◌then◌else◌, exists_in, Bool-cases, Option-cases, Elem, exists_in-Elem, exists_in-of_Elem,
  &&-split, some-injective, Elem-values, lookup-of_Elem,
}
use llm_inference_control_pl.Registry.{
  WorkerState, starting, ready, busy, draining, dead, unrecognized, WorkerEntry, Registry, Result,
  ok, err, same_state,
}
use llm_inference_control_pl.Registry.Operations.{evict}
use llm_inference_control_pl.Registry.Queries.{list_workers}
use llm_inference_control_pl.Registry.Invariant.{Inv}
use llm_inference_control_pl.Scaler.{
  Scaler, Fleet, World, grace_over, evicted_from, handle_dead, handle, sweep_workers, sweep,
}

-- A DEAD worker whose grace period is over.
abbrev pub expired : Scaler → (String → ℕ) → WorkerEntry → Bool
expired s clock e =
    same_state e.state dead && grace_over s (clock e.info.worker_id) e.marked_dead_at

-- Nothing else changes the registry.
abbrev pub quietly : (String → ℕ) → World
quietly clock = record { clock = clock; between = λ id r. r }

module _ (s : Scaler) (clock : String → ℕ) where
  pub evict-lookup :
      (id j : String) (r : Registry)
      → IsMap r.workers
      → IsMap (evict id r).0.workers
        × (lookup j (evict id r).0.workers ≡ (if str_eq id j then none else lookup j r.workers))
  unfolding evict
  evict-lookup id j r m = elim (Option-cases (lookup id r.workers)) [
    | inl e ↦
        rw (e, evict)
          (m, ground (arith, eq_iff id j, ap (λ (k : String). lookup k r.workers) {x = id} {y = j}))
    | inr (w, e) ↦ rw (e, evict) (delete-IsMap id r.workers m, lookup-delete id j r.workers m)
  ]

  abbrev hit : String → WorkerEntry → Bool
  hit j e = expired s clock e && str_eq e.info.worker_id j

  abbrev Handled : WorkerEntry → String → Fleet → Fleet → Type 0
  Handled e j f f' =
      IsMap f'.registry.workers
      × (lookup j f'.registry.workers ≡ (if hit j e then none else lookup j f.registry.workers))

  pub evicted_from-registry :
      (e : WorkerEntry) (f : Fleet) (p : Registry × Result (Unit {0}))
      → (evicted_from s e f p).registry ≡ p.0
  evicted_from-registry e f (r, ok u) = refl
  evicted_from-registry e f (r, err x) = refl

  dead-Handled :
      (e : WorkerEntry) (j : String) (f : Fleet)
      → e.state ≡ dead
      → IsMap f.registry.workers
      → Handled e j f (handle_dead (quietly clock) s e f)
  unfolding handle_dead
  dead-Handled e j f d m =
      let id = e.info.worker_id in
      elim (Bool-cases (grace_over s (clock id) e.marked_dead_at)) [
        | inl over ↦
            rw (d, over)
              (rw (evicted_from-registry _ f (evict id f.registry))
                (evict-lookup id j f.registry m))
        | inr within ↦ rw (d, within) (m, refl)
      ]

  worker-Handled :
      (e : WorkerEntry) (j : String) (f : Fleet) (state : WorkerState)
      → e.state ≡ state
      → IsMap f.registry.workers
      → Handled e j f (handle (quietly clock) s e state f)
  worker-Handled e j f dead d m = dead-Handled e j f d m
  worker-Handled e j f starting d m = rw d (m, refl)
  worker-Handled e j f ready d m = rw d (m, refl)
  worker-Handled e j f busy d m = rw d (m, refl)
  worker-Handled e j f draining d m = rw d (m, refl)
  worker-Handled e j f (unrecognized n) d m = rw d (m, refl)

  none_of_both :
      (a b : Bool) (x y z : Option WorkerEntry)
      → y ≡ (if a then none else x)
      → z ≡ (if b then none else y)
      → z ≡ (if (if a then true else b) then none else x)
  none_of_both true true x y z h k = k
  none_of_both true false x y z h k = k ∙ h
  none_of_both false true x y z h k = k
  none_of_both false false x y z h k = k ∙ h

  abbrev Swept : List WorkerEntry → String → Fleet → Fleet → Type 0
  Swept es j f f' =
      IsMap f'.registry.workers
      × (lookup j f'.registry.workers
          ≡ (if exists_in (hit j) es then none else lookup j f.registry.workers))

  workers-Swept :
      (es : List WorkerEntry) (j : String) (f : Fleet)
      → IsMap f.registry.workers
      → Swept es j f (sweep_workers (quietly clock) s es f)
  unfolding sweep_workers
  workers-Swept [] j f m = (m, refl)
  workers-Swept (e ∷ es) j f m =
      let (m', here) = worker-Handled e j f e.state refl m in
      let (m'', rest) = workers-Swept es j (handle (quietly clock) s e e.state f) m' in
      (m'', none_of_both (hit j e) (exists_in (hit j) es) _ _ _ here rest)

  -- A hit among the values of a well-formed registry is the entry of its id.
  hit_found :
      (r : Registry) (j : String) (x : WorkerEntry)
      → Inv r
      → Elem x (values r.workers)
      → hit j x ≡ true
      → (lookup j r.workers ≡ some x) × (expired s clock x ≡ true)
  hit_found r j x v there h =
      let (k, at) = lookup-of_Elem x r.workers v.keys there in
      let (over, named) = &&-split (expired s clock x) _ h in
      let same : x.info.worker_id ≡ j = (eq_iff x.info.worker_id j).0 named in
      (
        subst (λ (i : String). lookup i r.workers ≡ some x)
            (sym ((v.entries k x at).id_matches) ∙ same) at,
        over,
      )

  -- What a sweep leaves of an entry.
  abbrev pub survivor : Option WorkerEntry → Option WorkerEntry
  survivor none = none
  survivor (some e) = if expired s clock e then none else some e

  hits-survivor :
      (r : Registry) (j : String) (o : Option WorkerEntry) (b : Bool)
      → Inv r
      → lookup j r.workers ≡ o
      → exists_in (hit j) (values r.workers) ≡ b
      → (if b then none else o) ≡ survivor o
  hits-survivor r j none true v h b = refl
  hits-survivor r j none false v h b = refl
  hits-survivor r j (some e) true v h b =
      let (x, there, passes) = exists_in-Elem (hit j) (values r.workers) b in
      let (at, over) = hit_found r j x v there passes in
      let same : x ≡ e = some-injective x e (sym at ∙ h) in
      rw (subst (λ (y : WorkerEntry). expired s clock y ≡ true) same over) refl
  hits-survivor r j (some e) false v h b = elim (Bool-cases (expired s clock e)) [
    | inl over ↦
        let named = (eq_iff e.info.worker_id j).1 (v.entries j e h).id_matches in
        let hits : hit j e ≡ true = rw (over, named) refl in
        absurd (
          clash (exists_in (hit j) (values r.workers)) b
            (exists_in-of_Elem (hit j) e (values r.workers) (Elem-values j e r.workers h) hits))
    | inr within ↦ rw within refl
  ]
    where
      clash : (c : Bool) → c ≡ false → c ≡ true → ⊥
      clash c p q = cc

  -- A sweep of a well-formed registry that nothing else disturbs removes exactly the workers that
  -- are DEAD and whose grace period is over, and leaves every other entry as it is.
  pub sweep-survivor :
      (r : Registry) (j : String)
      → Inv r
      → lookup j (sweep (quietly clock) s r).0.registry.workers ≡ survivor (lookup j r.workers)
  unfolding sweep list_workers
  sweep-survivor r j v =
      (workers-Swept (values r.workers) j (record { registry = r; evicted = [] }) v.keys).1
      ∙ hits-survivor r j (lookup j r.workers) (exists_in (hit j) (values r.workers)) v refl refl
