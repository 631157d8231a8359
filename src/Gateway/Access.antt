-- ===== src/Gateway/Access.antt =====
-- Who gets past the authentication of gateway.go.
use llm_inference_control_pl.Common.{
  ℕ, ◌≡◌, refl, subst, Bool, true, false, Option, none, some, String, if◌then◌else◌,
}
use llm_inference_control_pl.Common.Http.{HttpRequest}
use llm_inference_control_pl.Queue.{Request}
use llm_inference_control_pl.Auth.{KeyInfo, KeyStore, RateLimiter, lookup_key, allow}
use llm_inference_control_pl.Gateway.{Gateway, extract_api_key}
use llm_inference_control_pl.Gateway.Begin.{
  World, waiting, passed, rejected, limited, check_rate, check_info, check_key, check_store,
  authenticate, begin_inference,
}
use llm_inference_control_pl.Gateway.Admission.{Began, queued, begin_inference-Began}

-- The rate limiter, if there is one, permits a request of the key.
abbrev permits_key : ℕ → KeyInfo → Option RateLimiter → Bool
permits_key now info none = true
permits_key now info (some limiter) = (allow info.key_id info.requests_per_min now limiter).1

-- The request's header names a key of the store, which has the key id, and whose limit is kept.
pub record Authorized (now : ℕ) (req : HttpRequest) (g : Gateway) (store : KeyStore)
    (key_id : String) : Type 0 where
  pub key : String
  pub info : KeyInfo
  pub presented : extract_api_key req.headers ≡ some key
  pub known : lookup_key key store ≡ some info
  pub same_id : key_id ≡ info.key_id
  pub permitted : permits_key now info g.rate_limiter ≡ true

module _ (now : ℕ) (req : HttpRequest) (g : Gateway) (store : KeyStore) (key_id : String) where
  rate_passed :
      (info : KeyInfo) (o : Option RateLimiter)
      → (check_rate now info g o).1 ≡ passed key_id
      → (key_id ≡ info.key_id) × (permits_key now info o ≡ true)
  rate_passed info none h = (cc, refl)
  rate_passed info (some limiter) h =
      limit_passed (allow info.key_id info.requests_per_min now limiter).1 h
    where
      limit_passed :
          (b : Bool)
          → (if b then passed info.key_id else rejected limited) ≡ passed key_id
          → (key_id ≡ info.key_id) × (b ≡ true)
      limit_passed true e = (cc, refl)
      limit_passed false e = absurd cc

  info_passed :
      (key : String) (o : Option KeyInfo)
      → extract_api_key req.headers ≡ some key
      → lookup_key key store ≡ o
      → (check_info now g o).1 ≡ passed key_id
      → Authorized now req g store key_id
  info_passed key none e f h = absurd cc
  info_passed key (some info) e f h =
      let (same, within) = rate_passed info g.rate_limiter h in
      record {
        key = key;
        info = info;
        presented = e;
        known = f;
        same_id = same;
        permitted = within;
      }

  key_passed :
      (o : Option String)
      → extract_api_key req.headers ≡ o
      → (check_key now store g o).1 ≡ passed key_id
      → Authorized now req g store key_id
  key_passed none e h = absurd cc
  key_passed (some key) e h = info_passed key (lookup_key key store) e refl h

  authenticate-Authorized :
      g.key_store ≡ some store
      → (authenticate now req g).1 ≡ passed key_id
      → Authorized now req g store key_id
  unfolding authenticate
  authenticate-Authorized configured h =
      key_passed (extract_api_key req.headers) refl
        (subst (λ (o : Option KeyStore). (check_store now req g o).1 ≡ passed key_id) configured h)

-- The key id with which a request waits has passed the authentication.
waiting_passed :
    (w : World) (now : ℕ) (req : HttpRequest) (g g' : Gateway) (r : Request) (estimated : Option ℕ)
    → Began w now req g (g', waiting r estimated)
    → (authenticate now req g).1 ≡ passed r.key_id
waiting_passed w now req g g' r estimated (queued h s e a _ _ _ _ _ _ _ _) = a

-- On a gateway with a key store, a request waits in the queue only under the key id of a key that
-- its header names, that the store has, and that the rate limiter, if there is one, permits.
pub begin_inference-Authorized :
    (w : World) (now : ℕ) (req : HttpRequest) (g g' : Gateway) (store : KeyStore) (r : Request)
    (estimated : Option ℕ)
    → g.key_store ≡ some store
    → begin_inference w now req g ≡ (g', waiting r estimated)
    → Authorized now req g store r.key_id
begin_inference-Authorized w now req g g' store r estimated configured waits =
    authenticate-Authorized now req g store r.key_id configured (
      waiting_passed w now req g g' r estimated
        (subst (Began w now req g) waits (begin_inference-Began w now req g)))
