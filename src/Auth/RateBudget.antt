-- ===== src/Auth/RateBudget.antt =====
-- The rate limit of ratelimiter.go over any sequence of calls.
use llm_inference_control_pl.Common.{
  ℕ, suc, ◌+◌, ◌-◌, ◌*◌, ◌≤◌, ◌≡◌, refl, ap, ◌∙◌, inl, inr, Bool, true, ◌&&◌, List, [], ◌∷◌, none,
  some, String, str_eq, eq_iff, lookup, ℤ, pos, arith, if◌then◌else◌, Bool-cases, le→ltb,
}
use llm_inference_control_pl.Auth.{Bucket, RateLimiter, unit, refilled, allow, tokens_of}
use llm_inference_control_pl.Auth.Buckets.{left_over, permits, allow-tokens_of, allow_others}

-- One call of Allow.
pub record Attempt : Type 0 where
  pub key_id : String
  pub requests_per_min : ℤ
  pub now : ℕ

-- How many of the calls for the key `k` are permitted.
unfoldable pub permitted : String → RateLimiter → List Attempt → ℕ
permitted k r [] = 0
permitted k r (a ∷ calls) =
    let (r', yes_or_no) = allow a.key_id a.requests_per_min a.now r in
    (if str_eq a.key_id k && yes_or_no then 1 else 0) + permitted k r' calls

-- The clock does not go back from `t` on, and the key `k` has the limit `n + 1` at each of its calls.
abbrev pub Timed : String → ℕ → ℕ → List Attempt → Type 0
Timed k n t [] = Unit {0}
Timed k n t (a ∷ calls) =
    (t ≤ a.now)
    × (str_eq a.key_id k ≡ true → a.requests_per_min ≡ pos (suc n))
    × Timed k n a.now calls

-- The time of the last call.
abbrev pub last_time : ℕ → List Attempt → ℕ
last_time t [] = t
last_time t (a ∷ calls) = last_time a.now calls

last_time-ge :
    (k : String) (n t : ℕ) (calls : List Attempt) → Timed k n t calls → t ≤ last_time t calls
last_time-ge k n t [] h = omega arith
last_time-ge k n t (a ∷ calls) h = omega (arith, h.0, last_time-ge k n a.now calls h.2)

split_time : (a b c rate : ℕ) → a ≤ b → b ≤ c → (b - a) * rate + (c - b) * rate ≡ (c - a) * rate
split_time a b c rate h k =
    let sum : (b - a) + (c - b) ≡ c - a = omega arith in omega (arith, ap (λ (t : ℕ). t * rate) sum)

module _ (k : String) (n : ℕ) where
  abbrev rate : ℕ
  rate = suc n

  -- What a bucket allows until `end`.
  abbrev Bounded : RateLimiter → ℕ → List Attempt → Bucket → Type 0
  Bounded r end calls b = permitted k r calls * unit ≤ b.tokens + (end - b.last_refill) * rate

  abbrev level_at : RateLimiter → ℕ → ℕ
  level_at r now = (tokens_of k (pos (suc n)) now r).tokens

  level-le :
      (r : RateLimiter) (b : Bucket) (now : ℕ)
      → lookup k r.buckets ≡ some b
      → level_at r now ≤ b.tokens + (now - b.last_refill) * rate
  unfolding tokens_of
  level-le r b now e = rw (e, level_at, tokens_of) (omega arith)

  own_step :
      (r : RateLimiter) (b : Bucket) (level now end count : ℕ) (ok : Bool)
      → b.last_refill ≤ now
      → now ≤ end
      → level ≤ b.tokens + (now - b.last_refill) * rate
      → ok ≡ permits level
      → count * unit ≤ left_over level + (end - now) * rate
      → ((if ok then 1 else 0) + count) * unit ≤ b.tokens + (end - b.last_refill) * rate
  own_step r b level now end count ok h k le e ih =
      let time = split_time b.last_refill now end rate h k in ground (arith, time)

  -- A call for `k` under its limit, seen through its answer and the bucket that it leaves.
  own_call :
      (r : RateLimiter) (now end count : ℕ)
      → (b : Bucket) → lookup k r.buckets ≡ some b
      → b.last_refill ≤ now
      → now ≤ end
      → ((b' : Bucket)
          → lookup k (allow k (pos rate) now r).0.buckets ≡ some b'
          → b'.last_refill ≤ now
          → count * unit ≤ b'.tokens + (end - b'.last_refill) * rate)
      → ((if (allow k (pos rate) now r).1 then 1 else 0) + count) * unit
        ≤ b.tokens + (end - b.last_refill) * rate
  own_call r now end count b found h later ih =
      let (answer, leaves) = allow-tokens_of k n now r in
      own_step r b (level_at r now) now end count (allow k (pos rate) now r).1 h later
        (level-le r b now found) answer
        (ih (record { tokens = left_over (level_at r now); last_refill = now }) leaves
          (omega arith))

  permitted-Bounded :
      (r : RateLimiter) (t : ℕ) (calls : List Attempt) (b : Bucket)
      → Timed k n t calls
      → lookup k r.buckets ≡ some b
      → b.last_refill ≤ t
      → Bounded r (last_time t calls) calls b
  unfolding permitted
  permitted-Bounded r t [] b timed found h = omega arith
  permitted-Bounded r t (a ∷ calls) b timed found h = elim (Bool-cases (str_eq a.key_id k)) [
    | inl own ↦
        let at : a.key_id ≡ k = (eq_iff a.key_id k).0 own in
        let limit : a.requests_per_min ≡ pos rate = timed.1 own in
        let later = last_time-ge k n a.now calls timed.2 in
        rw (own, limit, at)
          (own_call r a.now (last_time a.now calls)
            (permitted k (allow k (pos rate) a.now r).0 calls) b found (omega (arith, timed.0))
            later
            (λ b' found' early.
              permitted-Bounded (allow k (pos rate) a.now r).0 a.now calls b' timed.2 found' early))
    | inr other ↦ rw other (
        omega (
          arith,
          permitted-Bounded (allow a.key_id a.requests_per_min a.now r).0 a.now calls b timed.2
              (allow_others a.key_id k a.now r other a.requests_per_min ∙ found)
              (omega (arith, timed.0)),
        ))
  ]

  level-fresh :
      (r : RateLimiter) (now : ℕ) → lookup k r.buckets ≡ none → level_at r now ≡ rate * unit
  unfolding tokens_of
  level-fresh r now e = rw (e, level_at, tokens_of) refl

  -- The first call for `k` finds a full bucket.
  first_call :
      (r : RateLimiter) (now end count : ℕ)
      → lookup k r.buckets ≡ none
      → now ≤ end
      → ((b' : Bucket)
          → lookup k (allow k (pos rate) now r).0.buckets ≡ some b'
          → b'.last_refill ≤ now
          → count * unit ≤ b'.tokens + (end - b'.last_refill) * rate)
      → ((if (allow k (pos rate) now r).1 then 1 else 0) + count) * unit
        ≤ rate * unit + (end - now) * rate
  first_call r now end count fresh later ih =
      let (answer, leaves) = allow-tokens_of k n now r in
      own_step r (record { tokens = rate * unit; last_refill = now }) (level_at r now) now end count
        (allow k (pos rate) now r).1 (omega arith) later (omega (arith, level-fresh r now fresh))
        answer
        (ih (record { tokens = left_over (level_at r now); last_refill = now }) leaves
          (omega arith))

  more_time :
      (t now end count : ℕ)
      → t ≤ now
      → now ≤ end
      → count ≤ rate * unit + (end - now) * rate
      → count ≤ rate * unit + (end - t) * rate
  more_time t now end count h k' bound = omega (arith, bound, split_time t now end rate h k')

  -- Over any calls in the order of the clock, in which a key without a bucket has one positive
  -- limit, no more calls for that key are permitted than its limit a minute plus what the limit
  -- allows for the time up to the last call.
  pub permitted_within_limit :
      (r : RateLimiter) (t : ℕ) (calls : List Attempt)
      → Timed k n t calls
      → lookup k r.buckets ≡ none
      → permitted k r calls * unit ≤ suc n * unit + (last_time t calls - t) * suc n
  unfolding permitted
  permitted_within_limit r t [] timed fresh = omega arith
  permitted_within_limit r t (a ∷ calls) timed fresh = elim (Bool-cases (str_eq a.key_id k)) [
    | inl own ↦
        let at : a.key_id ≡ k = (eq_iff a.key_id k).0 own in
        let limit : a.requests_per_min ≡ pos rate = timed.1 own in
        let later = last_time-ge k n a.now calls timed.2 in
        rw (own, limit, at)
          (more_time t a.now (last_time a.now calls) _ timed.0 later (
            first_call r a.now (last_time a.now calls)
              (permitted k (allow k (pos rate) a.now r).0 calls) fresh later
              (λ b' found' early.
                permitted-Bounded (allow k (pos rate) a.now r).0 a.now calls b' timed.2 found'
                  early)))
    | inr other ↦
        let later = last_time-ge k n a.now calls timed.2 in
        let r' = (allow a.key_id a.requests_per_min a.now r).0 in
        rw other (
          more_time t a.now (last_time a.now calls) _ timed.0 later (
            omega (
              arith,
              permitted_within_limit r' a.now calls timed.2
                  (allow_others a.key_id k a.now r other a.requests_per_min ∙ fresh),
            )))
  ]

  -- A key with a positive limit is permitted again once the time since its last call has refilled a
  -- token.
  pub allow_after_wait :
      (r : RateLimiter) (b : Bucket) (now : ℕ)
      → lookup k r.buckets ≡ some b
      → unit ≤ (now - b.last_refill) * suc n
      → (allow k (pos (suc n)) now r).1 ≡ true
  unfolding tokens_of
  allow_after_wait r b now found waited =
      let answer = (allow-tokens_of k n now r).0 in
      answer
      ∙ rw (found, level_at, tokens_of)
          (rw (le→ltb (refilled (suc n) now b) unit (omega arith)) refl)
