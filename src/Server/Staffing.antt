-- ===== src/Server/Staffing.antt =====
-- The workers that main gives to the pool and to the estimator.
use llm_inference_control_pl.Common.{
  ℕ, zero, suc, at_least_one, ◌≡◌, ◌∙◌, refl, sym, false, Option, none, some, ℤ, pos, negsuc,
  is_nonpositive, length, ap, to_ℕ, some-injective,
}
use llm_inference_control_pl.Queue.{Queue}
use llm_inference_control_pl.Dispatcher
use llm_inference_control_pl.Dispatcher.{Dispatcher, with_max_attempts, with_fallbacks}
use llm_inference_control_pl.Dispatcher.Pool.{start_pool, idle_workers}
use llm_inference_control_pl.Auth.{KeyStore}
use llm_inference_control_pl.Slo.{LatencyTracker, Estimator, new_estimator, new_latency_tracker}
use llm_inference_control_pl.Gateway.{
  Gateway, with_slo, with_backpressure, with_auth, with_request_hook,
}
use llm_inference_control_pl.Server.{parse_api_keys}
use llm_inference_control_pl.Server.Assembly.{
  Flags, Server, make_gateway, make_dispatcher, make_queue, serve, assemble, with_keys,
}

-- What main makes if it does not panic.
pub assembled :
    (f : Flags) (s : Server)
    → assemble f ≡ some s
    → (q : Queue) × (s.gateway ≡ make_gateway f q) × (s.dispatcher ≡ make_dispatcher f)
unfolding assemble
assembled f s h = served (make_queue f.queue_capacity) h
  where
    served :
        (o : Option Queue)
        → serve f o ≡ some s
        → (q : Queue) × (s.gateway ≡ make_gateway f q) × (s.dispatcher ≡ make_dispatcher f)
    served none e = absurd cc
    served (some q) e =
        let same = some-injective _ s e in
        (q, sym (ap (λ (x : Server). x.gateway) same), sym (ap (λ (x : Server). x.dispatcher) same))

with_keys-slo : (o : Option KeyStore) (g : Gateway) → (with_keys o g).slo ≡ g.slo
unfolding with_auth
with_keys-slo none g = refl
with_keys-slo (some store) g = refl

pub make_gateway-slo :
    (f : Flags) (q : Queue)
    → (make_gateway f q).slo
      ≡ some (new_latency_tracker f.slo_fallback_latency, new_estimator f.concurrency)
unfolding make_gateway with_slo with_backpressure with_request_hook
make_gateway-slo f q = with_keys-slo (parse_api_keys f.api_keys) _

make_dispatcher-concurrency : (f : Flags) → (make_dispatcher f).concurrency ≡ f.concurrency
unfolding make_dispatcher with_max_attempts with_fallbacks Dispatcher.new
make_dispatcher-concurrency f = refl

idle_workers-length : (n : ℕ) → length (idle_workers n) ≡ n
unfolding idle_workers
idle_workers-length zero = refl
idle_workers-length (suc n) = ap suc (idle_workers-length n)

positive_same : (n : ℤ) → is_nonpositive n ≡ false → to_ℕ n ≡ at_least_one n
positive_same (pos zero) h = absurd cc
positive_same (pos (suc n)) h = refl
positive_same (negsuc n) h = absurd cc

-- If the concurrency flag is at least 1, the estimator divides by as many workers as the dispatcher
-- starts with.
pub assemble-workers :
    (f : Flags) (s : Server) (t : LatencyTracker) (e : Estimator)
    → assemble f ≡ some s
    → is_nonpositive f.concurrency ≡ false
    → s.gateway.slo ≡ some (t, e)
    → e.concurrency ≡ length (start_pool s.dispatcher s.gateway.queue).workers
unfolding new_estimator
assemble-workers f s t e h positive watched =
    let (q, gateway, dispatcher) = assembled f s h in
    let made : some (t, e)
        ≡ some (new_latency_tracker f.slo_fallback_latency, new_estimator f.concurrency) =
      sym watched ∙ ap (λ (g : Gateway). g.slo) gateway ∙ make_gateway-slo f q in
    let estimator : e ≡ new_estimator f.concurrency =
      ap (λ (x : LatencyTracker × Estimator). x.1) (some-injective _ _ made) in
    let runs : s.dispatcher.concurrency ≡ f.concurrency =
      ap (λ (d : Dispatcher). d.concurrency) dispatcher ∙ make_dispatcher-concurrency f in
    rw (estimator, runs, idle_workers-length (to_ℕ f.concurrency))
      (sym (positive_same f.concurrency positive))
