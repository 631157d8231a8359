-- ===== src/Gateway/Reporting.antt =====
-- What `finish` of gateway.go leaves behind: the hook and the latency tracker.
use llm_inference_control_pl.Common.{
  ℕ, ◌≡◌, refl, ◌∙◌, Bool, true, false, Option, none, some, String, str_eq, List, ◌∷◌,
  if◌then◌else◌, ap, sym, Assoc, lookup, leb, ◌&&◌,
}
use llm_inference_control_pl.Queue.{Request, Result, Failure}
use llm_inference_control_pl.Slo.{
  FloatOps, LatencyTracker, Estimator, average, record_latency, smoothed,
}
use llm_inference_control_pl.Slo.Monotone.{average-record_latency}
use llm_inference_control_pl.Gateway.{Gateway, notify, is_success}
use llm_inference_control_pl.Gateway.Finish.{
  Delivery, delivered, timed_out, finish, respond, record_wait, stream_response, buffered_response,
  wait_header, estimate_header,
}

-- The tracker after a delivery: a result is a sample of its model, a timeout is none.
abbrev pub sampled :
    FloatOps
    → String
    → Delivery
    → Option (LatencyTracker × Estimator)
    → Option (LatencyTracker × Estimator)
sampled f model timed_out slo = slo
sampled f model (delivered result chunks wait) slo = record_wait f model wait slo

module _ (f : FloatOps) (r : Request) (estimated : Option ℕ) (g : Gateway) where
  status_reported :
      (b : Bool) (headers : Assoc String) (result : Result) (chunks : List (List ℕ))
      → (if b
          then stream_response headers result chunks
          else buffered_response headers result).status
        ≡ result.status_code
  unfolding stream_response
  status_reported true headers result chunks = refl
  status_reported false headers result chunks = refl

  respond-notify :
      (headers : Assoc String) (result : Result) (chunks : List (List ℕ)) (e : Option Failure)
      (g' : Gateway)
      → (respond headers r result chunks e g').0
        ≡ notify r.model (is_success (respond headers r result chunks e g').1.status) g'
  respond-notify headers result chunks (some e) g' = refl
  respond-notify headers result chunks none g' =
      ap (λ (status : ℕ). notify r.model (is_success status) g')
        (sym (status_reported result.streaming headers result chunks))

  -- All that changes.
  pub finish-notify :
      (d : Delivery)
      → (finish f r estimated d g).0
        ≡ notify r.model
            (is_success (finish f r estimated d g).1.status)
            (record g { slo = sampled f r.model d g.slo })
  unfolding finish
  finish-notify timed_out = refl
  finish-notify (delivered result chunks wait) =
      respond-notify (wait_header wait g.slo (estimate_header estimated)) result chunks result.err
        (record g { slo = record_wait f r.model wait g.slo })

-- The average of a model with an exponential weight of 0.3 for the wait.
abbrev pub moved_average : FloatOps → ℕ → Option ℕ → ℕ
moved_average f wait none = wait
moved_average f wait (some cur) = f.truncate (
    f.add (f.mul (f.of_int cur) 0x3fe6_6666_6666_6666)
      (f.mul (f.of_int wait) 0x3fd3_3333_3333_3333))

-- The averages after a delivery: a result is a sample of its model, a timeout is none.
abbrev pub average_after : FloatOps → String → Delivery → LatencyTracker → String → ℕ
average_after f model timed_out t other = average other t
average_after f model (delivered result chunks wait) t other =
    if str_eq model other then moved_average f wait (lookup model t.avg) else average other t

sampled-average :
    (f : FloatOps) (model : String) (d : Delivery) (t : LatencyTracker) (e : Estimator)
    (slo : Option (LatencyTracker × Estimator))
    → slo ≡ some (t, e)
    → (t' : LatencyTracker) × (sampled f model d slo ≡ some (t', e))
      × ((other : String) → average other t' ≡ average_after f model d t other)
sampled-average f model timed_out t e slo h = (t, h, λ other. refl)
sampled-average f model (delivered result chunks wait) t e slo h = (
  record_latency f model wait t,
  ap (record_wait f model wait) h,
  λ other.
      average-record_latency f t model wait other
      ∙ ap (λ (n : ℕ). if str_eq model other then n else average other t)
          (smoothed_lem f wait (lookup model t.avg)),
)
  where
    smoothed_lem :
        (f : FloatOps) (wait : ℕ) (o : Option ℕ) → smoothed f wait o ≡ moved_average f wait o
    smoothed_lem f wait none = refl
    smoothed_lem f wait (some cur) = refl

-- With a hook and WithSLO, a waiting request ends with one call of the hook, which names its model and
-- says success exactly if the status that the client gets is 2xx. A result moves the average of its
-- model by its wait, to the wait itself at first, and a timeout moves none; no other average and
-- nothing of the queue changes.
pub finish-reports :
    (f : FloatOps) (r : Request) (estimated : Option ℕ) (g : Gateway) (d : Delivery)
    (t : LatencyTracker) (e : Estimator)
    → g.hook_set ≡ true
    → g.slo ≡ some (t, e)
    → let end = finish f r estimated d g in
      (end.0.hooked ≡ (r.model, leb 200 end.1.status && leb end.1.status 299) ∷ g.hooked)
      × (end.0.queue ≡ g.queue)
      × (t' : LatencyTracker) × (end.0.slo ≡ some (t', e))
      × ((other : String) → average other t' ≡ average_after f r.model d t other)
finish-reports f r estimated g d t e set slo =
    let same = finish-notify f r estimated g d in
    let ok = is_success (finish f r estimated d g).1.status in
    let after : Gateway = record g { slo = sampled f r.model d g.slo } in
    let (t', moved, averages) = sampled-average f r.model d t e g.slo slo in
    (
      ap (λ (h : Gateway). h.hooked) same ∙ hooked_once r.model ok after set,
      ap (λ (h : Gateway). h.queue) same ∙ notify_rest r.model ok after (λ h. h.queue) (λ h. refl),
      t',
      ap (λ (h : Gateway). h.slo) same
          ∙ notify_rest r.model ok after (λ h. h.slo) (λ h. refl)
          ∙ moved,
      averages,
    )
  where
    hooked_once :
        (model : String) (success : Bool) (h : Gateway)
        → h.hook_set ≡ true
        → (notify model success h).hooked ≡ (model, success) ∷ h.hooked
    hooked_once model success h set = rw set refl

    notify_rest :
        {A : Type 0} (model : String) (success : Bool) (h : Gateway) (part : Gateway → A)
        → ((calls : List (String × Bool)) → part (record h { hooked = calls }) ≡ part h)
        → part (notify model success h) ≡ part h
    notify_rest model success h part same = either h.hook_set
      where
        either :
            (b : Bool)
            → part (if b then record h { hooked = (model, success) ∷ h.hooked } else h) ≡ part h
        either true = same ((model, success) ∷ h.hooked)
        either false = refl
