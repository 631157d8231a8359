-- ===== src/Admin.antt =====
-- request-plane/admin: the counters of stats.go, and what the handlers of admin.go report. The int64
-- counters do not wrap here.
pub mod Reports
pub mod Routes
mod Examples
use llm_inference_control_pl.Common.{
  ℕ, ◌+◌, Bool, true, false, List, [], ◌∷◌, Option, none, some, String, ℤ, is_nonpositive, map,
  if◌then◌else◌,
}
use llm_inference_control_pl.Queue.{Queue, high, normal, low, len, len_by_priority, capacity}
use llm_inference_control_pl.Auth.{KeyInfo, KeyStore, RateLimiter, list_keys, tokens_of}

pub record Stats : Type 0 where
  pub total : ℕ
  pub success : ℕ
  pub errors : ℕ

-- NewStats
unfoldable pub new_stats : Stats
new_stats = record { total = 0; success = 0; errors = 0 }

-- The function that Hook returns.
unfoldable pub hook : String → Bool → Stats → Stats
hook model success s =
    if success
    then record s { total = s.total + 1; success = s.success + 1 }
    else record s { total = s.total + 1; errors = s.errors + 1 }

-- The calls of the gateway's hook, the latest first.
unfoldable pub hook_all : List (String × Bool) → Stats
hook_all [] = new_stats
hook_all ((model, success) ∷ calls) = hook model success (hook_all calls)

-- Snapshot
unfoldable pub snapshot : Stats → ℕ × ℕ × ℕ
snapshot s = (s.total, s.success, s.errors)

pub record QueueResp : Type 0 where
  pub high_count : ℕ
  pub normal_count : ℕ
  pub low_count : ℕ
  pub total_count : ℕ
  pub capacity_count : ℕ

-- handleQueue
unfoldable pub handle_queue : Queue → QueueResp
handle_queue q = record {
  high_count = len_by_priority q high;
  normal_count = len_by_priority q normal;
  low_count = len_by_priority q low;
  total_count = len q;
  capacity_count = capacity q;
}

-- `tokens_remaining` is in the units of the rate limiter; 0 is left out of the JSON text.
pub record KeyResp : Type 0 where
  pub key_id : String
  pub requests_per_min : ℤ
  pub tokens_remaining : ℕ
  pub unlimited : Bool

abbrev pub tokens_left : KeyInfo → ℕ → Option RateLimiter → ℕ
tokens_left info now none = 0
tokens_left info now (some limiter) =
    (tokens_of info.key_id info.requests_per_min now limiter).tokens

-- One round of the loop of handleKeys.
abbrev pub key_resp : ℕ → Option RateLimiter → KeyInfo → KeyResp
key_resp now limiter info = record {
  key_id = info.key_id;
  requests_per_min = info.requests_per_min;
  tokens_remaining =
      if is_nonpositive info.requests_per_min then 0 else tokens_left info now limiter;
  unlimited = is_nonpositive info.requests_per_min;
}

-- handleKeys
unfoldable pub handle_keys : ℕ → Option KeyStore → Option RateLimiter → List KeyResp
handle_keys now none limiter = []
handle_keys now (some store) limiter = map (key_resp now limiter) (list_keys store)
