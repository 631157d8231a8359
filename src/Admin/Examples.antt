-- ===== src/Admin/Examples.antt =====
-- Concrete reports of the request plane's admin API.
use llm_inference_control_pl.Common.{
  ◌+◌, ◌*◌, ◌≤◌, ◌≡◌, Bool, true, false, List, [], ◌∷◌, some, String, pos, to_ℕ, All,
}
use llm_inference_control_pl.Queue.{new}
use llm_inference_control_pl.Queue.Bounds.{new-IsBounded}
use llm_inference_control_pl.Auth.{KeyStore, unit}
use llm_inference_control_pl.Admin.{handle_queue, handle_keys}
use llm_inference_control_pl.Admin.Reports.{handle_queue-sum, handle_keys-le}

abbrev calls : List (String × Bool)
calls = ("m", true) ∷ ("", false) ∷ ("m", true) ∷ []

handle_queue-sum_example :
    ((handle_queue (new 2)).high_count
        + (handle_queue (new 2)).normal_count
        + (handle_queue (new 2)).low_count
      ≡ (handle_queue (new 2)).total_count)
    × ((handle_queue (new 2)).total_count ≤ (handle_queue (new 2)).capacity_count)
handle_queue-sum_example = handle_queue-sum (new 2) (new-IsBounded 2)

abbrev store : KeyStore
store = record { keys = ("secret", record { key_id = "team"; requests_per_min = pos 2 }) ∷ [] }

handle_keys-le_example :
    All
      (λ k. k.tokens_remaining ≤ to_ℕ k.requests_per_min * unit)
      (handle_keys 5 (some store) (some (record { buckets = [] })))
handle_keys-le_example = handle_keys-le 5 (some store) (some (record { buckets = [] }))
