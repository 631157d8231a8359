-- ===== src/Dispatcher/Budget.antt =====
-- The retry budget of dispatchBuffered: how many calls are made, and when it gives up.
use llm_inference_control_pl.Common.{
  ℕ, zero, suc, ◌+◌, ◌*◌, ◌≤◌, ◌<◌, ◌≡◌, refl, sym, ap, subst, ◌∙◌, ◌⊎◌, inl, inr, Bool, true,
  false, if◌then◌else◌, List, [], ◌∷◌, Option, none, some, String, arith, length, Bool-cases, Elem,
}
use llm_inference_control_pl.Queue.{Request, Result, Failure, rewrite_model, upstream_unreachable}
use llm_inference_control_pl.Dispatcher.{
  target_of, Dispatcher, World, Reply, unreachable, answers, is_retryable_status, model_chain,
  body_for, failed_result, no_result, buffered_reply, attempt, Round, sent, exhausted, attempts,
  dispatch_models, dispatch_buffered, continue_with, one_model,
}

-- A result that a retry might mend.
abbrev pub is_transient : Result → Bool
is_transient r = transient r.err r.status_code
  where
    transient : Option Failure → ℕ → Bool
    transient none status = is_retryable_status status
    transient (some upstream_unreachable) status = true
    transient (some _) status = false

-- The calls that a model of the chain may have: none if the body cannot be rewritten for it.
abbrev pub allowance : Dispatcher → Option (List ℕ) → ℕ
allowance d none = 0
allowance d (some body) = d.max_attempts

abbrev pub budget : World → Dispatcher → Request → List String → ℕ
budget w d req [] = 0
budget w d req (model ∷ models) = allowance d (body_for w req model) + budget w d req models

-- The end of a dispatch over a chain with `b` calls at most, from the result `final` on: it stays
-- within the budget, uses it up if the result is transient, and a result without an error names a
-- model of the chain, or is `final` if no attempt is allowed (`k` a model) or no model is left.
abbrev End : ℕ → List String → ℕ → ℕ → Result → Result × ℕ → Type 0
End k models b n final (r, m) =
    (m ≤ n + b)
    × (is_transient r ≡ true → m ≡ n + b)
    × (r.err ≡ none → Elem r.served_model models ⊎ (((k ≡ 0) ⊎ (models ≡ [])) × (r ≡ final)))

module _ (w : World) (d : Dispatcher) where
  reply-transient :
      (model : String) (reply : Reply)
      → ((buffered_reply model reply).1 ≡ is_transient (buffered_reply model reply).0)
        × ((buffered_reply model reply).0.served_model ≡ model)
  reply-transient model unreachable = (refl, refl)
  reply-transient model (answers status ct reads true) = (refl, refl)
  reply-transient model (answers status ct reads false) = (refl, refl)

  attempt-transient :
      (n : ℕ) (body : List ℕ) (model : String)
      → ((attempt w d n body model).1 ≡ is_transient (attempt w d n body model).0)
        × ((attempt w d n body model).0.served_model ≡ model)
  unfolding attempt
  attempt-transient n body model =
      ground (arith, reply-transient model (w.reply n (target_of d) body))

  -- What the attempts for one model come to, when `left` are allowed from the result `final` on.
  abbrev AttemptsEnd : String → ℕ → ℕ → Result → Round → Type 0
  AttemptsEnd model left n final (sent r m) =
      (m ≤ n + left) × (is_transient r ≡ false) × (r.served_model ≡ model)
  AttemptsEnd model left n final (exhausted r m) =
      (m ≡ n + left)
      × (((left ≡ 0) × (r ≡ final)) ⊎ ((is_transient r ≡ true) × (r.served_model ≡ model)))

  one_more :
      (model : String) (left n : ℕ) (final result : Result) (o : Round)
      → is_transient result ≡ true
      → result.served_model ≡ model
      → AttemptsEnd model left (n + 1) result o
      → AttemptsEnd model (suc left) n final o
  one_more model left n final result (sent r m) t s h = (omega arith, h.1, h.2)
  one_more model left n final result (exhausted r m) t s h = (omega (arith, h.0), inr (last h.1))
    where
      last :
          ((left ≡ 0) × (r ≡ result)) ⊎ ((is_transient r ≡ true) × (r.served_model ≡ model))
          → (is_transient r ≡ true) × (r.served_model ≡ model)
      last (inl (_, e)) = (
        subst (λ (x : Result). is_transient x ≡ true) (sym e) t,
        subst (λ (x : Result). x.served_model ≡ model) (sym e) s,
      )
      last (inr k) = k

  no_more : (left n : ℕ) (b : Bool) → (if b then n + 1 else n) ≤ n + suc left
  no_more left n true = omega arith
  no_more left n false = omega arith

  attempts-End :
      (body : List ℕ) (model : String) (left n : ℕ) (final : Result)
      → AttemptsEnd model left n final (attempts w d body model left n final)
  unfolding attempts
  attempts-End body model zero n final = (omega arith, inl (refl, refl))
  attempts-End body model (suc left) n final =
      let a = attempt w d n body model in
      let (flag, served) = attempt-transient n body model in
      elim (Bool-cases a.1) [
        | inl t ↦ rw t (
            one_more model left n final a.0 _ (sym flag ∙ t) served
              (attempts-End body model left (n + 1) a.0))
        | inr t ↦ rw t (no_more left n (w.builds (target_of d)), sym flag ∙ t, served)
      ]

  abbrev Ends : List String → ℕ → (ℕ → Result → Result × ℕ) → Type 0
  Ends models b next = (n : ℕ) (final : Result) → End d.max_attempts models b n final (next n final)

  continue-End :
      (model : String) (models : List String) (b n : ℕ) (final : Result)
      (next : ℕ → Result → Result × ℕ) (o : Round)
      → Ends models b next
      → AttemptsEnd model d.max_attempts n final o
      → End d.max_attempts (model ∷ models) (d.max_attempts + b) n final (continue_with next o)
  continue-End model models b n final next (sent r m) ends h =
      (omega (arith, h.0), λ t. absurd (not_both (is_transient r) t h.1), λ e. inl (inl (sym h.2)))
    where
      not_both : (x : Bool) → x ≡ true → x ≡ false → ⊥
      not_both x p q = cc
  continue-End model models b n final next (exhausted r m) ends h =
      let k = ends m r in
      (omega (arith, h.0, k.0), λ t. omega (arith, h.0, k.1 t), λ e. named (next m r).0 h.1 (k.2 e))
    where
      named :
          (x : Result)
          → ((d.max_attempts ≡ 0) × (r ≡ final))
            ⊎ ((is_transient r ≡ true) × (r.served_model ≡ model))
          → Elem x.served_model models ⊎ (((d.max_attempts ≡ 0) ⊎ (models ≡ [])) × (x ≡ r))
          → Elem x.served_model (model ∷ models)
            ⊎ (((d.max_attempts ≡ 0) ⊎ ((model ∷ models) ≡ [])) × (x ≡ final))
      named x k (inl among) = inl (inr among)
      named x (inl (z, e)) (inr (_, same)) = inr (inl z, same ∙ e)
      named x (inr (_, e)) (inr (_, same)) =
          inl (inl (sym e ∙ sym (ap (λ (y : Result). y.served_model) same)))

  one_model-End :
      (model : String) (models : List String) (b n : ℕ) (final : Result)
      (next : ℕ → Result → Result × ℕ) (o : Option (List ℕ))
      → Ends models b next
      → End d.max_attempts
          (model ∷ models)
          (allowance d o + b)
          n
          final
          (one_model w d model n final next o)
  one_model-End model models b n final next none ends =
      let k = ends n (failed_result (rewrite_model model) "") in
      (omega (arith, k.0), λ t. omega (arith, k.1 t), λ e. named (next n _).0 e (k.2 e))
    where
      named :
          (x : Result)
          → x.err ≡ none
          → Elem x.served_model models
            ⊎ (((d.max_attempts ≡ 0) ⊎ (models ≡ []))
                × (x ≡ failed_result (rewrite_model model) ""))
          → Elem x.served_model (model ∷ models)
            ⊎ (((d.max_attempts ≡ 0) ⊎ ((model ∷ models) ≡ [])) × (x ≡ final))
      named x e (inl among) = inl (inr among)
      named x e (inr (_, same)) =
          absurd (failed_has_error (sym e ∙ ap (λ (y : Result). y.err) same))
        where
          failed_has_error : none ≡ some (rewrite_model model) → ⊥
          failed_has_error q = cc
  one_model-End model models b n final next (some body) ends =
      continue-End model models b n final next _ ends
        (attempts-End body model d.max_attempts n final)

  dispatch-End :
      (req : Request) (models : List String)
      → Ends models (budget w d req models) (dispatch_models w d req models)
  unfolding dispatch_models
  dispatch-End req [] n final = (omega arith, λ t. omega arith, λ e. inr (inr refl, refl))
  dispatch-End req (model ∷ models) n final =
      one_model-End model models (budget w d req models) n final (dispatch_models w d req models)
        (body_for w req model) (dispatch-End req models)

  budget-le :
      (req : Request) (models : List String)
      → budget w d req models ≤ d.max_attempts * length models
  budget-le req [] = omega arith
  budget-le req (model ∷ models) = ground (arith, budget-le req models)

  -- With at least one attempt allowed, a buffered dispatch makes at most maxAttempts calls for each
  -- model of its chain, ends with a transient failure only after all the calls that the chain
  -- allows, and names a model of the chain in a result without an error.
  pub dispatch_buffered-budget :
      (req : Request) (n : ℕ)
      → 0 < d.max_attempts
      → let (r, m) = dispatch_buffered w d req n in
        (m ≤ n + d.max_attempts * length (model_chain d req))
        × (is_transient r ≡ true → m ≡ n + budget w d req (model_chain d req))
        × (r.err ≡ none → Elem r.served_model (model_chain d req))
  unfolding dispatch_buffered
  dispatch_buffered-budget req n pos =
      let (r, m) = dispatch_models w d req (model_chain d req) n no_result in
      let (within, used, named) = dispatch-End req (model_chain d req) n no_result in
      (omega (arith, budget-le req (model_chain d req)), used, λ e. from_chain r (named e))
    where
      from_chain :
          (x : Result)
          → Elem x.served_model (model_chain d req)
            ⊎ (((d.max_attempts ≡ 0) ⊎ (model_chain d req ≡ [])) × (x ≡ no_result))
          → Elem x.served_model (model_chain d req)
      from_chain x (inl among) = among
      from_chain x (inr (inl z, _)) = absurd (omega arith)
      from_chain x (inr (inr z, _)) = absurd (unfold model_chain in cc)
