-- ===== src/Auth/Buckets.antt =====
-- One call of Allow of ratelimiter.go, and Tokens.
use llm_inference_control_pl.Common.{
  ℕ, suc, ◌-◌, ◌*◌, ◌≤◌, ◌≡◌, refl, inl, inr, Bool, true, false, Option, none, some, String, str_eq,
  lookup, lookup-insert, eq_refl, ℤ, pos, is_nonpositive, to_ℕ, ltb, arith, if◌then◌else◌,
  Bool-cases, le→ltb,
}
use llm_inference_control_pl.Auth.{
  Bucket, RateLimiter, unit, refilled, store, allow_found, allow, level_found, tokens_of,
}

-- What is left of a level after a call.
abbrev pub left_over : ℕ → ℕ
left_over tokens = if ltb tokens unit then tokens else tokens - unit

abbrev pub permits : ℕ → Bool
permits tokens = if ltb tokens unit then false else true

lookup-store :
    (key_id other : String) (tokens now : ℕ) (r : RateLimiter)
    → lookup other (store key_id tokens now r).buckets ≡ (
        if str_eq key_id other
        then some (record { tokens = tokens; last_refill = now })
        else lookup other r.buckets)
lookup-store key_id other tokens now r =
    lookup-insert key_id other (record { tokens = tokens; last_refill = now }) r.buckets

lookup-store_self :
    (key_id : String) (tokens now : ℕ) (r : RateLimiter)
    → lookup key_id (store key_id tokens now r).buckets
      ≡ some (record { tokens = tokens; last_refill = now })
lookup-store_self key_id tokens now r =
    rw (lookup-store key_id key_id tokens now r) (rw (eq_refl key_id) refl)

module _ (key_id : String) (n now : ℕ) (r : RateLimiter) where
  abbrev Outcome : ℕ → RateLimiter × Bool → Type 0
  Outcome level (r', permitted) =
      (permitted ≡ permits level)
      × (lookup key_id r'.buckets ≡ some (record { tokens = left_over level; last_refill = now }))

  found-Outcome :
      (o : Option Bucket)
      → Outcome (level_found (suc n) now o).tokens (allow_found key_id (suc n) now r o)
  found-Outcome none =
      rw (le→ltb (suc n * unit) unit (omega arith))
        (refl, lookup-store_self key_id (suc n * unit - unit) now r)
  found-Outcome (some b) = elim (Bool-cases (ltb (refilled (suc n) now b) unit)) [
    | inl t ↦ rw t (refl, lookup-store_self key_id (refilled (suc n) now b) now r)
    | inr t ↦ rw t (refl, lookup-store_self key_id (refilled (suc n) now b - unit) now r)
  ]

  -- Under a positive limit, Allow permits a call exactly when Tokens shows a whole token at that
  -- time, and leaves in the bucket what Tokens showed, less a token if it permits.
  pub allow-tokens_of :
      let level = (tokens_of key_id (pos (suc n)) now r).tokens in
      let (r', permitted) = allow key_id (pos (suc n)) now r in
      (permitted ≡ permits level)
      × (lookup key_id r'.buckets ≡ some (record { tokens = left_over level; last_refill = now }))
  unfolding allow tokens_of
  allow-tokens_of = found-Outcome (lookup key_id r.buckets)

  level_found-le : (o : Option Bucket) → (level_found (suc n) now o).tokens ≤ suc n * unit
  level_found-le none = omega arith
  level_found-le (some b) = omega arith

  -- The level never passes the capacity.
  pub tokens_of-le : (tokens_of key_id (pos (suc n)) now r).tokens ≤ suc n * unit
  unfolding tokens_of
  tokens_of-le = level_found-le (lookup key_id r.buckets)

module _ (key_id other : String) (now : ℕ) (r : RateLimiter)
    (ne : str_eq key_id other ≡ false) where
  found_others :
      (rpm : ℕ) (o : Option Bucket)
      → lookup other (allow_found key_id rpm now r o).0.buckets ≡ lookup other r.buckets
  found_others rpm none = rw (lookup-store key_id other (rpm * unit - unit) now r) (rw ne refl)
  found_others rpm (some b) = elim (Bool-cases (ltb (refilled rpm now b) unit)) [
    | inl t ↦ rw t (rw (lookup-store key_id other (refilled rpm now b) now r) (rw ne refl))
    | inr t ↦ rw t (rw (lookup-store key_id other (refilled rpm now b - unit) now r) (rw ne refl))
  ]

  -- A call for one key leaves the buckets of all others alone.
  pub allow_others :
      (requests_per_min : ℤ)
      → lookup other (allow key_id requests_per_min now r).0.buckets ≡ lookup other r.buckets
  unfolding allow
  allow_others requests_per_min = elim (Bool-cases (is_nonpositive requests_per_min)) [
    | inl t ↦ rw t refl
    | inr t ↦ rw t (found_others (to_ℕ requests_per_min) (lookup key_id r.buckets))
  ]
