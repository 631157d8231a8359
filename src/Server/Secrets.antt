-- ===== src/Server/Secrets.antt =====
-- The API keys of the flag from main to the gateway and to the admin API.
use llm_inference_control_pl.Common.{
  ℕ, ◌≡◌, ◌≢◌, ◌∙◌, refl, sym, ap, subst, List, [], ◌∷◌, map, Option, some, String, Assoc, lookup,
  IsMap, All, pos, eq_iff, some-injective, values, Bool-cases, inl, inr, str_eq,
}
use llm_inference_control_pl.Common.Http.{HttpRequest}
use llm_inference_control_pl.Queue.{Request}
use llm_inference_control_pl.Auth.{KeyInfo, KeyStore, RateLimiter, lookup_key, list_keys}
use llm_inference_control_pl.Gateway.{Gateway, with_auth, extract_api_key}
use llm_inference_control_pl.Gateway.Begin.{World, waiting, begin_inference}
use llm_inference_control_pl.Gateway.Sessions.{Event, opened, run}
use llm_inference_control_pl.Gateway.Keys.{run-key_store}
use llm_inference_control_pl.Gateway.Access.{begin_inference-Authorized}
use llm_inference_control_pl.Admin.{KeyResp, key_resp, handle_keys}
use llm_inference_control_pl.Server.{parse_api_keys}
use llm_inference_control_pl.Server.Flags.{print_keys, IsLimit, stored, parse-print_keys}
use llm_inference_control_pl.Server.Assembly.{Flags, Server, make_gateway, assemble, with_keys}
use llm_inference_control_pl.Server.Staffing.{assembled}

-- The keys of the limits.
abbrev pub names : Assoc ℕ → List String
names = map (λ (l : String × ℕ). l.0)

with_keys-store :
    (store : KeyStore) (g : Gateway) → (with_keys (some store) g).key_store ≡ some store
unfolding with_auth
with_keys-store store g = refl

lookup-stored :
    (key : String) (limits : Assoc ℕ) (info : KeyInfo)
    → lookup key (stored limits) ≡ some info
    → (limit : ℕ) × (lookup key limits ≡ some limit) × (info.key_id ≡ key)
unfolding lookup
lookup-stored key [] info h = absurd cc
lookup-stored key ((k, limit) ∷ rest) info h = elim (Bool-cases (str_eq k key)) [
  | inl t ↦
      let found : info ≡ record { key_id = k; requests_per_min = pos limit } =
        sym (some-injective _ info (rw t at h)) in
      (limit, rw t refl, ap (λ (x : KeyInfo). x.key_id) found ∙ (eq_iff k key).0 t)
  | inr t ↦ let (n, there, same) = lookup-stored key rest info (rw t at h) in (n, rw t there, same)
]

listed_names :
    (now : ℕ) (o : Option RateLimiter) (limits : Assoc ℕ)
    → map (λ (k : KeyResp). k.key_id) (map (key_resp now o) (values (stored limits))) ≡ names limits
listed_names now o [] = refl
listed_names now o ((k, limit) ∷ rest) = ap (λ (ks : List String). k ∷ ks) (listed_names now o rest)

module _ (f : Flags) (s : Server) (limits : Assoc ℕ) (started : assemble f ≡ some s)
    (printed : f.api_keys ≡ print_keys limits) (some_key : limits ≢ [])
    (distinct : IsMap (stored limits)) (valid : All IsLimit limits) where
  key_store-stored : s.gateway.key_store ≡ some (record { keys = stored limits })
  unfolding make_gateway
  key_store-stored =
      let (q, gateway, _) = assembled f s started in
      let parsed : parse_api_keys f.api_keys ≡ some (record { keys = stored limits }) =
        ap parse_api_keys printed ∙ parse-print_keys limits some_key distinct valid in
      rw (gateway, parsed) (with_keys-store _ _)

  -- On a server that starts with an API key flag printed from limits, of which there are some and
  -- whose keys are distinct, not empty and without separators, after any arrivals, deliveries, timeouts
  -- and pops, a request waits in the queue only if its header names a key of the flag, and then under
  -- that key.
  pub assemble-authorized :
      (w : World) (es : List Event) (now : ℕ) (req : HttpRequest) (g : Gateway) (r : Request)
      (estimated : Option ℕ)
      → begin_inference w now req (run w (opened s.gateway) es).gateway ≡ (g, waiting r estimated)
      → (limit : ℕ) × (lookup r.key_id limits ≡ some limit)
        × (extract_api_key req.headers ≡ some r.key_id)
  unfolding lookup_key
  assemble-authorized w es now req g r estimated waits =
      let later = (run w (opened s.gateway) es).gateway in
      let a =
        begin_inference-Authorized w now req later g _ r estimated
          (run-key_store w (opened s.gateway) es ∙ key_store-stored) waits in
      let (limit, there, same) = lookup-stored a.key limits a.info a.known in
      let named : r.key_id ≡ a.key = a.same_id ∙ same in
      (
        limit,
        subst (λ (k : String). lookup k limits ≡ some limit) (sym named) there,
        a.presented ∙ ap (λ (k : String). some k) (sym named),
      )

  -- The admin API of a server that starts with an API key flag printed from limits, of which there
  -- are some and whose keys are distinct, not empty and without separators, lists the secret keys
  -- of the flag themselves.
  pub assemble-reveals :
      (now : ℕ)
      → map (λ (k : KeyResp). k.key_id) (handle_keys now s.gateway.key_store s.gateway.rate_limiter)
        ≡ names limits
  unfolding handle_keys list_keys
  assemble-reveals now = rw key_store-stored (listed_names now s.gateway.rate_limiter limits)
