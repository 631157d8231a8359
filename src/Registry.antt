-- ===== src/Registry.antt =====
-- control-plane/registry/registry.go, with the messages of proto/registry.proto. Every method holds
-- the lock for its whole body, so a method is one step on the state. A method that reads the clock
-- twice takes both readings. Times and durations are nanoseconds.
pub mod Operations
pub mod Queries
pub mod Transitions
pub mod Invariant
pub mod Lifecycle
pub mod Histories
pub mod Deadline
pub mod Catalog
pub mod Models
pub mod Exile
pub mod Bystanders
pub mod Examples
use llm_inference_control_pl.Common.{
  ℕ, ◌+◌, ◌-◌, ◌*◌, ◌^◌, ◌≡◌, Bool, true, false, List, [], ◌∷◌, Option, none, some, String, str_eq,
  Assoc, lookup, insert, delete, values, ltb, leb, ◌==◌, if◌then◌else◌, select, exists_in, tally,
  ◌||◌, ◌&&◌, length,
}
use llm_inference_control_pl.Common.Float.{Float64}

-- An enum of proto3 is open: a message may carry a number with no name.
pub data WorkerState : Type 0 where
  starting ready busy draining dead : WorkerState
  unrecognized : ℕ → WorkerState

pub record WorkerInfo : Type 0 where
  pub worker_id : String
  pub address : String
  pub gpu_type : String
  pub vram_bytes : ℕ
  pub models_loaded : List String
  pub backend : String
  pub provider : String
  pub hardware : String
  pub cost_per_hour : Float64

pub record LoadReport : Type 0 where
  pub worker_id : String
  pub queue_depth : ℕ
  pub requests_per_sec : Float64
  pub avg_latency_ms : Float64
  pub vram_used_bytes : ℕ

pub record RegisterResponse : Type 0 where
  pub registered : Bool
  pub message : String
  pub heartbeat_interval_secs : ℕ

pub record HeartbeatRequest : Type 0 where
  pub worker_id : String
  pub state : WorkerState

pub record HeartbeatResponse : Type 0 where
  pub alive : Bool
  pub drain : Bool

abbrev pub default_heartbeat_interval_secs : ℕ
default_heartbeat_interval_secs = 5

-- 15 seconds
abbrev pub default_dead_timeout : ℕ
default_dead_timeout = 15 * 10 ^ 9

-- A timer of `time.AfterFunc`: it fires at the time given, or is stopped or has fired.
pub data Timer : Type 0 where
  armed : ℕ → Timer
  idle : Timer

-- `marked_dead_at` is none for the zero time.
pub record WorkerEntry : Type 0 where
  pub info : WorkerInfo
  pub state : WorkerState
  pub last_heartbeat : ℕ
  pub registered_at : ℕ
  pub load : LoadReport
  pub drain_requested : Bool
  pub marked_dead_at : Option ℕ
  pub deadline_timer : Timer

pub record Registry : Type 0 where
  pub workers : Assoc WorkerEntry
  pub dead_timeout : ℕ

-- The errors of the methods, with what their messages carry.
pub data Error : Type 0 where
  worker_id_required address_required : Error
  not_registered : String → Error
  invalid_transition : WorkerState → WorkerState → String → Error
  not_found : String → Error

pub data Result {ℓ} (A : Type ℓ) : Type ℓ where
  ok : A → Result A
  err : Error → Result A

unfoldable pub new : ℕ → Registry
new dead_timeout = record { workers = []; dead_timeout = dead_timeout }

-- LoadReport{WorkerId: id}
abbrev pub empty_load : String → LoadReport
empty_load id = record {
  worker_id = id;
  queue_depth = 0;
  requests_per_sec = 0;
  avg_latency_ms = 0;
  vram_used_bytes = 0;
}

-- The entry that Register builds at `now`, its timer set at `armed_at`.
abbrev pub new_entry : WorkerInfo → ℕ → ℕ → WorkerEntry
new_entry info now deadline = record {
  info = info;
  state = starting;
  last_heartbeat = now;
  registered_at = now;
  load = empty_load info.worker_id;
  drain_requested = false;
  marked_dead_at = none;
  deadline_timer = armed deadline;
}

-- Register. The timer is started after the clock was read, at `armed_at`.
unfoldable pub register :
    (now armed_at : ℕ) → WorkerInfo → Registry → Registry × Result RegisterResponse
register now armed_at info r =
    if str_eq info.worker_id ""
    then (r, err worker_id_required)
    else if str_eq info.address ""
    then (r, err address_required)
    else (
      record r {
        workers = insert info.worker_id (new_entry info now (armed_at + r.dead_timeout)) r.workers;
      },
      ok (record {
        registered = true;
        message = "registered";
        heartbeat_interval_secs = default_heartbeat_interval_secs;
      }),
    )

-- from == to
abbrev pub same_state : WorkerState → WorkerState → Bool
same_state starting starting = true
same_state ready ready = true
same_state busy busy = true
same_state draining draining = true
same_state dead dead = true
same_state (unrecognized m) (unrecognized n) = m == n
same_state _ _ = false

-- The `switch` of validTransition.
abbrev allowed_change : WorkerState → WorkerState → Bool
allowed_change starting to = same_state to ready
allowed_change ready to = same_state to busy || same_state to draining
allowed_change busy to = same_state to ready || same_state to draining
allowed_change draining to = false
allowed_change dead to = false
allowed_change (unrecognized n) to = false

-- validTransition
unfoldable pub valid_transition : WorkerState → WorkerState → Bool
valid_transition from to = if same_state from to then true else allowed_change from to

-- The entry after an accepted heartbeat: the timer is reset at `reset_at`, then the clock is read.
abbrev pub beat : (reset_at now timeout : ℕ) → WorkerState → WorkerEntry → WorkerEntry
beat reset_at now timeout state e = record e {
  deadline_timer = armed (reset_at + timeout);
  last_heartbeat = now;
  state = state;
}

abbrev heartbeat_found :
    (reset_at now : ℕ)
    → HeartbeatRequest
    → Registry
    → Option WorkerEntry
    → Registry × Result HeartbeatResponse
heartbeat_found reset_at now req r none = (r, err (not_registered req.worker_id))
heartbeat_found reset_at now req r (some e) =
    if valid_transition e.state req.state
    then (
      record r {
        workers = insert req.worker_id (beat reset_at now r.dead_timeout req.state e) r.workers;
      },
      ok (record { alive = true; drain = e.drain_requested }),
    )
    else (r, err (invalid_transition e.state req.state req.worker_id))

-- Heartbeat
unfoldable pub heartbeat :
    (reset_at now : ℕ) → HeartbeatRequest → Registry → Registry × Result HeartbeatResponse
heartbeat reset_at now req r = heartbeat_found reset_at now req r (lookup req.worker_id r.workers)
