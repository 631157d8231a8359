-- ===== src/Gateway/Admission.antt =====
-- What `begin_inference` of gateway.go does with a request: the order of its checks, and the queue.
use llm_inference_control_pl.Common.{
  ℕ, ◌+◌, ◌%◌, ◌^◌, ◌≡◌, inl, inr, refl, sym, subst, Bool, true, false, List, Option, none, some,
  String, str_eq, if◌then◌else◌, arith, Bool-cases,
}
use llm_inference_control_pl.Common.Http.{HttpRequest, Response}
use llm_inference_control_pl.Queue.{Request, try_push}
use llm_inference_control_pl.Auth.{KeyInfo, KeyStore, RateLimiter, lookup_key, allow}
use llm_inference_control_pl.Gateway.{Gateway, notify, extract_api_key, parse_priority, is_success}
use llm_inference_control_pl.Gateway.Begin.{
  World, Begun, answered, waiting, Checked, passed, rejected, limited, check_rate, check_info,
  check_key, check_store, authenticate, estimate_for, turns_away, turned_away, make_request, push,
  enqueue, begin_decoded, begin_body, begin_checked, begin_inference, refuse, or_zero, bad_body,
}

-- How a request may begin. It is refused without success, the hook is told so once, and the queue is
-- as it was; or it passed the authentication and the policy with the estimate of its place in the
-- queue, and the queue has accepted it under a new id, and the hook is not called.
pub data Began (w : World) (now : ℕ) (req : HttpRequest) (g : Gateway)
    : Gateway × Begun → Type 0 where
  refused :
      (g' : Gateway) (model : String) (response : Response)
      → g'.queue ≡ g.queue
      → g'.hooked ≡ (notify model false g).hooked
      → is_success response.status ≡ false
      → g'.hook_set ≡ g.hook_set
      → Began w now req g (g', answered response)
  queued :
      (g' : Gateway) (r : Request) (estimated : Option ℕ)
      → (authenticate now req g).1 ≡ passed r.key_id
      → r.priority ≡ parse_priority req.headers
      → estimated ≡ estimate_for w.floats r.model r.priority g
      → turns_away g.policy r.priority estimated ≡ false
      → (r.id ≡ (g.id_counter + 1) % 2 ^ 64) × (g'.id_counter ≡ r.id)
      → (try_push g.queue r).1 ≡ true
      → g'.queue ≡ (try_push g.queue r).0
      → g'.hooked ≡ g.hooked
      → g'.hook_set ≡ g.hook_set
      → Began w now req g (g', waiting r estimated)

module _ (w : World) (now : ℕ) (req : HttpRequest) (g : Gateway) where
  -- The gateway after the authentication.
  abbrev checked : Option RateLimiter → Gateway
  checked limiter = record g { rate_limiter = limiter }

  refuse-Began :
      (limiter : Option RateLimiter) (model : String) (response : Response)
      → is_success response.status ≡ false
      → Began w now req g (refuse model response (checked limiter))
  refuse-Began limiter model response e =
      refused (notify model false (checked limiter)) model response (ground arith) (ground arith) e
        (ground arith)

  -- Every refusal of the authentication is an error.
  abbrev IsError : Checked → Type 0
  IsError (passed key_id) = Unit {0}
  IsError (rejected response) = is_success response.status ≡ false

  rate-IsError : (info : KeyInfo) (o : Option RateLimiter) → IsError (check_rate now info g o).1
  rate-IsError info none = tt
  rate-IsError info (some limiter) =
      limited_or_not (allow info.key_id info.requests_per_min now limiter).1
    where
      limited_or_not : (b : Bool) → IsError (if b then passed info.key_id else rejected limited)
      limited_or_not true = tt
      limited_or_not false = refl

  info-IsError : (o : Option KeyInfo) → IsError (check_info now g o).1
  info-IsError none = refl
  info-IsError (some info) = rate-IsError info g.rate_limiter

  key-IsError : (store : KeyStore) (o : Option String) → IsError (check_key now store g o).1
  key-IsError store none = refl
  key-IsError store (some key) = info-IsError (lookup_key key store)

  store-IsError : (o : Option KeyStore) → IsError (check_store now req g o).1
  store-IsError none = tt
  store-IsError (some store) = key-IsError store (extract_api_key req.headers)

  -- The authentication changes the rate limiter only.
  abbrev Keeps : Gateway → Type 0
  Keeps g' = g' ≡ checked g'.rate_limiter

  rate-Keeps : (info : KeyInfo) (o : Option RateLimiter) → Keeps (check_rate now info g o).0
  rate-Keeps info none = refl
  rate-Keeps info (some limiter) = refl

  info-Keeps : (o : Option KeyInfo) → Keeps (check_info now g o).0
  info-Keeps none = refl
  info-Keeps (some info) = rate-Keeps info g.rate_limiter

  key-Keeps : (store : KeyStore) (o : Option String) → Keeps (check_key now store g o).0
  key-Keeps store none = refl
  key-Keeps store (some key) = info-Keeps (lookup_key key store)

  pub store-Keeps : (o : Option KeyStore) → Keeps (check_store now req g o).0
  store-Keeps none = refl
  store-Keeps (some store) = key-Keeps store (extract_api_key req.headers)

  push-Began :
      (limiter : Option RateLimiter) (r : Request) (estimated : Option ℕ)
      → (authenticate now req g).1 ≡ passed r.key_id
      → r.priority ≡ parse_priority req.headers
      → estimated ≡ estimate_for w.floats r.model r.priority g
      → turns_away g.policy r.priority estimated ≡ false
      → r.id ≡ (g.id_counter + 1) % 2 ^ 64
      → Began w now req g (push r estimated (checked limiter))
  push-Began limiter r estimated a p e t i = elim (Bool-cases (try_push g.queue r).1) [
    | inl accepted ↦ rw accepted (
        queued (record (checked limiter) { id_counter = r.id; queue = (try_push g.queue r).0 }) r
          estimated a p e t (i, refl) accepted refl refl refl)
    | inr full ↦ rw full (
        refused (notify r.model false (record (checked limiter) { id_counter = r.id })) r.model _
          (ground arith) (ground arith) refl (ground arith))
  ]

  enqueue-Began :
      (limiter : Option RateLimiter) (key_id : String) (body : List ℕ) (model : String)
      (stream : Bool)
      → (authenticate now req g).1 ≡ passed key_id
      → let priority = parse_priority req.headers in
        Began w now req g (
          enqueue now key_id body model stream priority
            (estimate_for w.floats model priority g)
            (checked limiter))
  enqueue-Began limiter key_id body model stream a =
      let priority = parse_priority req.headers in
      let estimated = estimate_for w.floats model priority g in
      elim (Bool-cases (turns_away g.policy priority estimated)) [
        | inl t ↦ rw t (refuse-Began limiter model (turned_away priority (or_zero estimated)) refl)
        | inr t ↦ rw t (
            push-Began limiter (make_request now key_id body model stream priority g) estimated a
              refl refl t refl)
      ]

  decoded-Began :
      (limiter : Option RateLimiter) (key_id : String) (body : List ℕ) (o : Option (String × Bool))
      → (authenticate now req g).1 ≡ passed key_id
      → Began w now req g (begin_decoded w now req key_id body o (checked limiter))
  unfolding estimate_for
  decoded-Began limiter key_id body none a = refuse-Began limiter "" bad_body refl
  decoded-Began limiter key_id body (some (model, stream)) a = elim (Bool-cases (str_eq model "")) [
    | inl e ↦ rw e (refuse-Began limiter "" bad_body refl)
    | inr e ↦ rw e (enqueue-Began limiter key_id body model stream a)
  ]

  body-Began :
      (limiter : Option RateLimiter) (key_id : String) (o : Option (List ℕ))
      → (authenticate now req g).1 ≡ passed key_id
      → Began w now req g (begin_body w now req key_id o (checked limiter))
  body-Began limiter key_id none a = refuse-Began limiter "" _ refl
  body-Began limiter key_id (some body) a = decoded-Began limiter key_id body (w.decode body) a

  checked-Began :
      (limiter : Option RateLimiter) (o : Checked)
      → IsError o
      → (authenticate now req g).1 ≡ o
      → Began w now req g (begin_checked w now req (checked limiter, o))
  checked-Began limiter (rejected response) e a = refuse-Began limiter "" response e
  checked-Began limiter (passed key_id) e a = body-Began limiter key_id req.body a

  -- An inference request either is refused with an error, and then the queue is unchanged and the
  -- hook is told once that it failed; or it waits, and then it passed the authentication, its
  -- estimate is the one for the queue before it and was not turned away, the queue has accepted it
  -- under the next id, and the hook was not called.
  pub begin_inference-Began : Began w now req g (begin_inference w now req g)
  unfolding begin_inference authenticate
  begin_inference-Began = elim (Bool-cases (str_eq req.method "POST")) [
    | inl e ↦ rw e (
        subst
          (λ (g' : Gateway).
            Began w now req g (begin_checked w now req (g', (authenticate now req g).1)))
          (sym (store-Keeps g.key_store))
          (checked-Began (authenticate now req g).0.rate_limiter (authenticate now req g).1
            (store-IsError g.key_store) refl))
    | inr e ↦ rw e (refuse-Began g.rate_limiter "" _ refl)
  ]
