-- ===== src/Admin/Reports.antt =====
-- What the request plane's admin API reports, against the parts that it reads.
use llm_inference_control_pl.Common.{
  ℕ, zero, suc, ◌+◌, ◌*◌, ◌≤◌, ◌≡◌, refl, Bool, true, false, List, [], ◌∷◌, Option, none, some,
  String, ℤ, pos, negsuc, is_nonpositive, to_ℕ, map, length, tally, arith, All, if◌then◌else◌,
}
use llm_inference_control_pl.Queue.{Queue, len, len_by_priority}
use llm_inference_control_pl.Queue.Bounds.{IsBounded, len-le-capacity}
use llm_inference_control_pl.Auth.{KeyInfo, KeyStore, RateLimiter, list_keys, unit}
use llm_inference_control_pl.Auth.Buckets.{tokens_of-le}
use llm_inference_control_pl.Admin.{
  new_stats, hook, hook_all, handle_queue, tokens_left, key_resp, handle_keys,
}

-- The counters of Stats agree with the calls of the hook: each is counted once, and as a success or
-- an error.
pub hook_all-tally :
    (calls : List (String × Bool))
    → ((hook_all calls).total ≡ length calls)
      × ((hook_all calls).success ≡ tally (λ c. c.1) calls)
      × ((hook_all calls).success + (hook_all calls).errors ≡ (hook_all calls).total)
unfolding hook_all hook new_stats
hook_all-tally [] = (refl, refl, refl)
hook_all-tally ((model, true) ∷ calls) = ground (arith, hook_all-tally calls)
hook_all-tally ((model, false) ∷ calls) = ground (arith, hook_all-tally calls)

-- The queue report adds up, and a queue within its bounds reports no more than its capacity.
pub handle_queue-sum :
    (q : Queue)
    → IsBounded q
    → ((handle_queue q).high_count + (handle_queue q).normal_count + (handle_queue q).low_count
        ≡ (handle_queue q).total_count)
      × ((handle_queue q).total_count ≤ (handle_queue q).capacity_count)
unfolding handle_queue len_by_priority len
handle_queue-sum q b = (refl, len-le-capacity q b)

row-le :
    (now : ℕ) (limiter : Option RateLimiter) (info : KeyInfo)
    → (key_resp now limiter info).tokens_remaining ≤ to_ℕ info.requests_per_min * unit
row-le now limiter info = tokens-le info.requests_per_min limiter
  where
    tokens-le :
        (n : ℤ) (o : Option RateLimiter)
        → (if is_nonpositive n then 0 else tokens_left (record info { requests_per_min = n }) now o)
          ≤ to_ℕ n * unit
    tokens-le (pos zero) o = omega arith
    tokens-le (negsuc n) o = omega arith
    tokens-le (pos (suc n)) none = omega arith
    tokens-le (pos (suc n)) (some r) = tokens_of-le info.key_id n now r

rows-le :
    (now : ℕ) (limiter : Option RateLimiter) (infos : List KeyInfo)
    → All
        (λ k. k.tokens_remaining ≤ to_ℕ k.requests_per_min * unit)
        (map (key_resp now limiter) infos)
rows-le now limiter [] = tt
rows-le now limiter (info ∷ infos) = (row-le now limiter info, rows-le now limiter infos)

-- No key is reported with more tokens than its limit a minute.
pub handle_keys-le :
    (now : ℕ) (o : Option KeyStore) (limiter : Option RateLimiter)
    → All (λ k. k.tokens_remaining ≤ to_ℕ k.requests_per_min * unit) (handle_keys now o limiter)
unfolding handle_keys
handle_keys-le now none limiter = tt
handle_keys-le now (some store) limiter = rows-le now limiter (list_keys store)
