-- ===== src/Worker/Exile.antt =====
-- A worker that the registry has marked DEAD or evicted, while its process goes on.
use llm_inference_control_pl.Common.{
  ℕ, ◌≡◌, refl, sym, subst, ◌∙◌, ◌⊎◌, inl, inr, Bool, true, false, List, [], ◌∷◌, some,
  some-injective, String, str_eq, eq_iff, lookup, All, values, Bool-cases, Elem-of_select,
  All-of_Elem, lookup-of_Elem, &&-split,
}
use llm_inference_control_pl.Registry.{WorkerState, dead, Registry, WorkerEntry}
use llm_inference_control_pl.Registry.Operations.{Call, beats, deregisters, reports, step}
use llm_inference_control_pl.Registry.Queries.{healthy_workers_for_model, is_healthy, has_model}
use llm_inference_control_pl.Registry.Invariant.{Inv, step-Inv}
use llm_inference_control_pl.Registry.Exile.{enrolls, IsExiled, step-IsExiled}
use llm_inference_control_pl.Worker.{
  System, Event, ticks, lasts, load_ticks, loads, interrupts, drain_seen, leaves, others,
  step_system, run_system, Beater, beating, last_beat, returned, Main, waiting, leaving, exited,
  report, last_report, tick, last_tick, interrupt, see_drain, leave, step_alive, step_others, alive,
}

-- The rest of the fleet registers the worker `id`.
abbrev pub enrolls_anew : String → Event → Bool
enrolls_anew id (others c) = enrolls id c
enrolls_anew id _ = false

-- What an event does to the registry: nothing, or one call that registers nobody by itself.
module _ (id : String) where
  abbrev Calls : Registry → Bool → Registry → Type 0
  Calls r anew r' = (r' ≡ r) ⊎ ((c : Call) × (r' ≡ step r c) × (enrolls id c ≡ anew))

  tick-Calls :
      (b : Beater) (s : System) (reset_at now : ℕ)
      → Calls s.registry false (tick b reset_at now s).registry
  unfolding step
  tick-Calls beating s reset_at now = inr (beats reset_at now (report s.node), refl, refl)
  tick-Calls last_beat s reset_at now = inl refl
  tick-Calls returned s reset_at now = inl refl

  last_tick-Calls :
      (b : Beater) (s : System) (reset_at now : ℕ)
      → Calls s.registry false (last_tick b reset_at now s).registry
  unfolding step
  last_tick-Calls last_beat s reset_at now =
      inr (beats reset_at now (last_report s.node), refl, refl)
  last_tick-Calls beating s reset_at now = inl refl
  last_tick-Calls returned s reset_at now = inl refl

  main-Calls :
      (m : Main) (b : Beater) (s : System)
      → Calls s.registry false (interrupt m s).registry
        × Calls s.registry false (see_drain m b s).registry
        × Calls s.registry false (leave m s).registry
  main-Calls waiting beating s = (inl refl, inl refl, inl refl)
  main-Calls waiting last_beat s = (inl refl, inl refl, inl refl)
  main-Calls waiting returned s = (inl refl, inl refl, inl refl)
  main-Calls leaving b s = (inl refl, inl refl, inr (deregisters s.node.id, refl, refl))
  main-Calls exited b s = (inl refl, inl refl, inl refl)

  alive-Calls :
      (s : System) (e : Event) → Calls s.registry (enrolls_anew id e) (step_alive s e).registry
  alive-Calls s (ticks reset_at now) = tick-Calls s.node.beater s reset_at now
  alive-Calls s (lasts reset_at now) = last_tick-Calls s.node.beater s reset_at now
  alive-Calls s (load_ticks load) =
      inr (reports (record load { worker_id = s.node.id }), refl, refl)
  alive-Calls s loads = inl refl
  alive-Calls s interrupts = (main-Calls s.node.main s.node.beater s).0
  alive-Calls s drain_seen = (main-Calls s.node.main s.node.beater s).1
  alive-Calls s leaves = (main-Calls s.node.main s.node.beater s).2
  alive-Calls s (others c) = inr (c, refl, refl)

  others-Calls :
      (s : System) (e : Event) → Calls s.registry (enrolls_anew id e) (step_others s e).registry
  others-Calls s (others c) = inr (c, refl, refl)
  others-Calls s (ticks reset_at now) = inl refl
  others-Calls s (lasts reset_at now) = inl refl
  others-Calls s (load_ticks load) = inl refl
  others-Calls s loads = inl refl
  others-Calls s interrupts = inl refl
  others-Calls s drain_seen = inl refl
  others-Calls s leaves = inl refl

  pub event-Calls :
      (s : System) (e : Event) → Calls s.registry (enrolls_anew id e) (step_system s e).registry
  unfolding step_system
  event-Calls s e = elim (Bool-cases (alive s.node.main)) [
    | inl t ↦ rw t (alive-Calls s e)
    | inr t ↦ rw t (others-Calls s e)
  ]

  pub step_system-Inv : (s : System) (e : Event) → Inv s.registry → Inv (step_system s e).registry
  step_system-Inv s e v = elim (event-Calls s e) [
    | inl kept ↦ subst Inv (sym kept) v
    | inr (c, called, _) ↦ subst Inv (sym called) (step-Inv s.registry v c)
  ]

  step_system-IsExiled :
      (s : System) (e : Event)
      → Inv s.registry
      → enrolls_anew id e ≡ false
      → IsExiled id s.registry
      → IsExiled id (step_system s e).registry
  step_system-IsExiled s e v h exiled = elim (event-Calls s e) [
    | inl kept ↦ subst (IsExiled id) (sym kept) exiled
    | inr (c, called, anew) ↦
        subst (IsExiled id) (sym called) (step-IsExiled id s.registry c v (anew ∙ h) exiled)
  ]

  run_system-IsExiled :
      (s : System) (es : List Event)
      → Inv s.registry
      → All (λ e. enrolls_anew id e ≡ false) es
      → IsExiled id s.registry
      → Inv (run_system s es).registry × IsExiled id (run_system s es).registry
  unfolding run_system
  run_system-IsExiled s [] v h exiled = (v, exiled)
  run_system-IsExiled s (e ∷ es) v h exiled =
      run_system-IsExiled (step_system s e) es (step_system-Inv s e v) h.1
        (step_system-IsExiled s e v h.0 exiled)

exiled_healthy :
    (id : String) (r : Registry) (e : WorkerEntry)
    → IsExiled id r
    → lookup id r.workers ≡ some e
    → is_healthy e.state ≡ true
    → ⊥
exiled_healthy id r e (inl missing) found healthy = cc
exiled_healthy id r e (inr (x, there, is_dead)) found healthy =
    let same_entry : x ≡ e = some-injective x e (sym there ∙ found) in
    let is_dead' : e.state ≡ dead =
      subst (λ (w : WorkerEntry). w.state ≡ dead) same_entry is_dead in
    let wrong : is_healthy dead ≡ true =
      subst (λ (w : WorkerState). is_healthy w ≡ true) is_dead' healthy in
    cc

healthy-IsExiled :
    (id model : String) (r : Registry)
    → Inv r
    → IsExiled id r
    → All (λ e. str_eq e.info.worker_id id ≡ false) (healthy_workers_for_model model r)
unfolding healthy_workers_for_model
healthy-IsExiled id model r v exiled = All-of_Elem _ _ λ e there.
    let (listed, passes) = Elem-of_select _ e (values r.workers) there in
    let (k, found) = lookup-of_Elem e r.workers v.keys listed in
    let healthy = (&&-split (is_healthy e.state) (has_model model e) passes).0 in
    elim (Bool-cases (str_eq e.info.worker_id id)) [
      | inr other ↦ other
      | inl same ↦
          let at : k ≡ id =
            sym (v.entries k e found).id_matches ∙ (eq_iff e.info.worker_id id).0 same in
          absurd (
            exiled_healthy id r e exiled
              (subst (λ (j : String). lookup j r.workers ≡ some e) at found) healthy)
    ]

-- Once a well-formed registry has marked a worker DEAD or evicted it, and unless its id is
-- registered again, no event of its process or of the rest of the fleet makes it a healthy worker
-- of any model.
pub run_system-unrouted :
    (s : System) (es : List Event) (id model : String)
    → Inv s.registry
    → IsExiled id s.registry
    → All (λ e. enrolls_anew id e ≡ false) es
    → All
        (λ e. str_eq e.info.worker_id id ≡ false)
        (healthy_workers_for_model model (run_system s es).registry)
run_system-unrouted s es id model v exiled h =
    let (v', exiled') = run_system-IsExiled id s es v h exiled in
    healthy-IsExiled id model (run_system s es).registry v' exiled'
