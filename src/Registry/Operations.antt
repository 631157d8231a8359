-- ===== src/Registry/Operations.antt =====
-- The other methods of registry.go that change the registry: Deregister, ReportLoad, RequestDrain,
-- Evict and markDead, and the step that any of its callers can make.
use llm_inference_control_pl.Common.{
  ℕ, ◌+◌, Bool, true, false, Option, none, some, String, lookup, insert, delete, ltb, if◌then◌else◌,
}
use llm_inference_control_pl.Registry.{
  dead, WorkerInfo, LoadReport, HeartbeatRequest, Timer, idle, WorkerEntry, Registry, Error,
  not_registered, not_found, Result, ok, err, same_state, register, heartbeat,
}

-- The timer is stopped with the entry: a deleted entry has no timer.
abbrev drop_found : String → Registry → Error → Option WorkerEntry → Registry × Result (Unit {0})
drop_found id r e none = (r, err e)
drop_found id r e (some w) = (record r { workers = delete id r.workers }, ok tt)

-- Deregister
unfoldable pub deregister : String → Registry → Registry × Result (Unit {0})
deregister id r = drop_found id r (not_registered id) (lookup id r.workers)

-- Evict
unfoldable pub evict : String → Registry → Registry × Result (Unit {0})
evict id r = drop_found id r (not_found id) (lookup id r.workers)

abbrev change_found :
    String
    → (WorkerEntry → WorkerEntry)
    → Registry
    → Error
    → Option WorkerEntry
    → Registry × Result (Unit {0})
change_found id f r e none = (r, err e)
change_found id f r e (some w) = (record r { workers = insert id (f w) r.workers }, ok tt)

-- ReportLoad
unfoldable pub report_load : LoadReport → Registry → Registry × Result (Unit {0})
report_load report r =
    change_found report.worker_id (λ e. record e { load = report }) r
      (not_registered report.worker_id) (lookup report.worker_id r.workers)

-- RequestDrain
unfoldable pub request_drain : String → Registry → Registry × Result (Unit {0})
request_drain id r =
    change_found id (λ e. record e { drain_requested = true }) r (not_found id)
      (lookup id r.workers)

-- The entry after markDead set it.
abbrev pub buried : ℕ → WorkerEntry → WorkerEntry
buried marked_at e = record e { state = dead; marked_dead_at = some marked_at }

-- time.Since(entry.LastHeartbeat) < r.deadTimeout, the clock read at `checked_at`.
abbrev mark_found : (checked_at marked_at : ℕ) → String → Registry → Option WorkerEntry → Registry
mark_found checked_at marked_at id r none = r
mark_found checked_at marked_at id r (some e) =
    if same_state e.state dead
    then r
    else if ltb checked_at (e.last_heartbeat + r.dead_timeout)
    then r
    else record r { workers = insert id (buried marked_at e) r.workers }

-- markDead
unfoldable pub mark_dead : (checked_at marked_at : ℕ) → String → Registry → Registry
mark_dead checked_at marked_at id r = mark_found checked_at marked_at id r (lookup id r.workers)

-- The runtime fires the timer of an entry at `now`, if it is due: it is armed no more, and a
-- goroutine will call markDead. Whether it was due is the second part.
abbrev pub fired : ℕ → Timer → Bool
fired now (Timer.armed deadline) = if ltb now deadline then false else true
fired now idle = false

abbrev fire_found : ℕ → String → Registry → Option WorkerEntry → Registry × Bool
fire_found now id r none = (r, false)
fire_found now id r (some e) =
    if fired now e.deadline_timer
    then (record r { workers = insert id (record e { deadline_timer = idle }) r.workers }, true)
    else (r, false)

unfoldable pub fire_timer : ℕ → String → Registry → Registry × Bool
fire_timer now id r = fire_found now id r (lookup id r.workers)

-- A call on the registry, with its clock readings.
pub data Call : Type 0 where
  registers : (now armed_at : ℕ) → WorkerInfo → Call
  beats : (reset_at now : ℕ) → HeartbeatRequest → Call
  deregisters evicts drains : String → Call
  reports : LoadReport → Call
  fires : ℕ → String → Call
  marks : (checked_at marked_at : ℕ) → String → Call

unfoldable pub step : Registry → Call → Registry
step r (registers now armed_at info) = (register now armed_at info r).0
step r (beats reset_at now req) = (heartbeat reset_at now req r).0
step r (deregisters id) = (deregister id r).0
step r (evicts id) = (evict id r).0
step r (drains id) = (request_drain id r).0
step r (reports report) = (report_load report r).0
step r (fires now id) = (fire_timer now id r).0
step r (marks checked_at marked_at id) = mark_dead checked_at marked_at id r
