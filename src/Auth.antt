-- ===== src/Auth.antt =====
-- request-plane/auth: keystore.go, and the token buckets of ratelimiter.go. A bucket counts in units
-- of 1/(60 * 10^9) of a token, in which refilling by whole nanoseconds is exact: the rounding of the
-- source's float64 arithmetic is not modelled. The clock is monotonic, so `now` is an argument.
pub mod Buckets
pub mod RateBudget
mod Examples
use llm_inference_control_pl.Common.{
  ℕ, ◌+◌, ◌-◌, ◌*◌, ◌^◌, Bool, true, false, List, [], Option, none, some, String, Assoc, lookup,
  insert, delete, values, ℤ, is_nonpositive, to_ℕ, ltb, if◌then◌else◌, min,
}

pub record KeyInfo : Type 0 where
  pub key_id : String
  pub requests_per_min : ℤ

pub record KeyStore : Type 0 where
  pub keys : Assoc KeyInfo

-- NewKeyStore
unfoldable pub new_key_store : KeyStore
new_key_store = record { keys = [] }

-- AddKey
unfoldable pub add_key : String → KeyInfo → KeyStore → KeyStore
add_key api_key info s = record { keys = insert api_key info s.keys }

-- RemoveKey
unfoldable pub remove_key : String → KeyStore → KeyStore
remove_key api_key s = record { keys = delete api_key s.keys }

-- KeyStore.Lookup
unfoldable pub lookup_key : String → KeyStore → Option KeyInfo
lookup_key api_key s = lookup api_key s.keys

-- ListKeys
unfoldable pub list_keys : KeyStore → List KeyInfo
list_keys s = values s.keys

pub record Bucket : Type 0 where
  pub tokens : ℕ
  pub last_refill : ℕ

pub record RateLimiter : Type 0 where
  pub buckets : Assoc Bucket

-- NewRateLimiter
unfoldable pub new_rate_limiter : RateLimiter
new_rate_limiter = record { buckets = [] }

-- One token.
abbrev pub unit : ℕ
unit = 60 * 10 ^ 9

-- min(capacity, tokens + elapsed * refillPerSec)
abbrev pub refilled : ℕ → ℕ → Bucket → ℕ
refilled rpm now b = min (rpm * unit) (b.tokens + (now - b.last_refill) * rpm)

abbrev pub store : String → ℕ → ℕ → RateLimiter → RateLimiter
store key_id tokens now r = record {
  buckets = insert key_id (record { tokens = tokens; last_refill = now }) r.buckets;
}

abbrev pub allow_found : String → ℕ → ℕ → RateLimiter → Option Bucket → RateLimiter × Bool
allow_found key_id rpm now r none = (store key_id (rpm * unit - unit) now r, true)
allow_found key_id rpm now r (some b) =
    let tokens = refilled rpm now b in
    if ltb tokens unit
    then (store key_id tokens now r, false)
    else (store key_id (tokens - unit) now r, true)

-- Allow
unfoldable pub allow : String → ℤ → ℕ → RateLimiter → RateLimiter × Bool
allow key_id requests_per_min now r =
    if is_nonpositive requests_per_min
    then (r, true)
    else allow_found key_id (to_ℕ requests_per_min) now r (lookup key_id r.buckets)

-- What Tokens returns.
pub record Level : Type 0 where
  pub tokens : ℕ
  pub capacity : ℕ
  pub tracked : Bool

abbrev pub level_found : ℕ → ℕ → Option Bucket → Level
level_found rpm now none = record { tokens = rpm * unit; capacity = rpm * unit; tracked = true }
level_found rpm now (some b) = record {
  tokens = refilled rpm now b;
  capacity = rpm * unit;
  tracked = true;
}

-- Tokens
unfoldable pub tokens_of : String → ℤ → ℕ → RateLimiter → Level
tokens_of key_id requests_per_min now r =
    if is_nonpositive requests_per_min
    then record { tokens = 0; capacity = 0; tracked = false }
    else level_found (to_ℕ requests_per_min) now (lookup key_id r.buckets)
