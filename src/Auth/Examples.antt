-- ===== src/Auth/Examples.antt =====
-- Concrete runs of the rate limiter of ratelimiter.go.
use llm_inference_control_pl.Common.{
  ℕ, ◌≡◌, ◌≤◌, ◌+◌, ◌-◌, ◌*◌, ◌^◌, refl, List, [], ◌∷◌, String, arith, lookup, insert, pos,
}
use llm_inference_control_pl.Auth.{RateLimiter, unit, allow}
use llm_inference_control_pl.Auth.RateBudget.{Attempt, permitted, permitted_within_limit}

-- Half a token is left for "k".
abbrev limiter : RateLimiter
limiter = record { buckets = ("k", record { tokens = 30 * 10 ^ 9; last_refill = 0 }) ∷ [] }

abbrev call : String → ℕ → Attempt
call key_id now = record { key_id = key_id; requests_per_min = pos 2; now = now }

-- Two a minute for "j": a third call at once is refused, one after 30 seconds is not.
abbrev calls : List Attempt
calls = call "j" 1 ∷ call "k" 2 ∷ call "j" 2 ∷ call "j" 3 ∷ call "j" (30 * 10 ^ 9 + 1) ∷ []

permitted_within_limit_example :
    permitted "j" limiter calls * unit ≤ 2 * unit + (30 * 10 ^ 9 + 1 - 1) * 2
unfolding lookup
permitted_within_limit_example =
    permitted_within_limit "j" 1 limiter 1 calls
      (
        omega arith,
        λ e. refl,
        (
          omega arith,
          λ e. refl,
          (omega arith, λ e. refl, (omega arith, λ e. refl, (omega arith, λ e. refl, tt))),
        ),
      )
      refl

permitted_calls : permitted "j" limiter calls ≡ 3
unfolding permitted allow lookup insert
permitted_calls = refl
