-- ===== src/Backpressure.antt =====
-- request-plane/backpressure/policy.go. A priority that is not configured has no threshold.
use llm_inference_control_pl.Common.{
  ℕ, ◌*◌, ◌^◌, ◌≤◌, ◌≡◌, refl, Bool, true, Option, none, some, leb, arith,
}
use llm_inference_control_pl.Queue.{Priority, high, normal, low}

pub record Policy : Type 0 where
  pub max_wait : Priority → Option ℕ

-- New
unfoldable pub new : (Priority → Option ℕ) → Policy
new max_wait = record { max_wait = max_wait }

-- DefaultThresholds: 5, 15 and 60 seconds
unfoldable pub default_thresholds : Priority → Option ℕ
default_thresholds high = some (5 * 10 ^ 9)
default_thresholds normal = some (15 * 10 ^ 9)
default_thresholds low = some (60 * 10 ^ 9)

abbrev within : ℕ → Option ℕ → Bool
within wait none = true
within wait (some most) = leb wait most

-- Admit
unfoldable pub admit : Policy → Priority → ℕ → Bool
admit p priority estimated_wait = within estimated_wait (p.max_wait priority)

within_mono :
    (o : Option ℕ) (wait wait' : ℕ) → wait' ≤ wait → within wait o ≡ true → within wait' o ≡ true
within_mono none wait wait' h a = refl
within_mono (some most) wait wait' h a = ground arith

-- A shorter wait is never refused where a longer one is admitted.
pub admit_mono :
    (p : Policy) (priority : Priority) (wait wait' : ℕ)
    → wait' ≤ wait
    → admit p priority wait ≡ true
    → admit p priority wait' ≡ true
unfolding admit
admit_mono p priority wait wait' = within_mono (p.max_wait priority) wait wait'
