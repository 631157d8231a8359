-- ===== src/Dispatcher/Pool/Staffing.antt =====
-- The workers of the pool of dispatcher.go and its concurrency.

use llm_inference_control_pl.Common.{
  ℕ, zero, suc, ◌<◌, ◌≡◌, ◌∙◌, refl, ap, true, false, List, [], ◌∷◌, arith, length, to_ℕ,
  is_nonpositive, ℤ, pos, negsuc, All,
}
use llm_inference_control_pl.Queue.{Queue}
use llm_inference_control_pl.Dispatcher.{Dispatcher}
use llm_inference_control_pl.Dispatcher.Pool.{
  Worker, stopped, Pool, idle_workers, Moved, here, there, Work, take, block, wake, stop, finish,
  jam, Step, work, arrive, cancel, Reach, start, later,
}
use llm_inference_control_pl.Dispatcher.Pool.Bound.{Moved-length}

-- A worker returns only after the context was cancelled.
abbrev Returned : Worker → Type 0
Returned stopped = Unit {0}
Returned _ = ⊥

abbrev pub AtWork : Worker → Type 0
AtWork w = Returned w → ⊥

pub record IsStaffed (d : Dispatcher) (p : Pool) : Type 0 where
  pub count : length p.workers ≡ to_ℕ d.concurrency
  pub running : p.cancelled ≡ false → All AtWork p.workers

Moved-AtWork :
    {a b : Worker} {ws ws' : List Worker}
    → Moved a b ws ws'
    → AtWork b
    → All AtWork ws
    → All AtWork ws'
Moved-AtWork here b h = (b, h.1)
Moved-AtWork (there m) b h = (h.0, Moved-AtWork m b h.1)

staffed_move :
    (d : Dispatcher) (p : Pool) {a b : Worker} {ws : List Worker}
    → Moved a b p.workers ws
    → AtWork b
    → IsStaffed d p
    → (length ws ≡ to_ℕ d.concurrency) × (p.cancelled ≡ false → All AtWork ws)
staffed_move d p m b h = (Moved-length m ∙ h.count, λ on. Moved-AtWork m b (h.running on))

Work-IsStaffed : (d : Dispatcher) {p p' : Pool} → Work d p p' → IsStaffed d p → IsStaffed d p'
Work-IsStaffed d {p} (take m e) h =
    let (count, running) = staffed_move d p m (λ x. x) h in
    record { count = count; running = running }
Work-IsStaffed d {p} (block m e) h =
    let (count, running) = staffed_move d p m (λ x. x) h in
    record { count = count; running = running }
Work-IsStaffed d {p} (wake from m e) h =
    let (count, running) = staffed_move d p m (λ x. x) h in
    record { count = count; running = running }
Work-IsStaffed d {p} (stop m e) h = record {
  count = Moved-length m ∙ h.count;
  running = λ on. absurd cc;
}
Work-IsStaffed d {p} (finish w m) h =
    let (count, running) = staffed_move d p m (λ x. x) h in
    record { count = count; running = running }
Work-IsStaffed d {p} (jam w m e) h =
    let (count, running) = staffed_move d p m (λ x. x) h in
    record { count = count; running = running }

Step-IsStaffed : (d : Dispatcher) {p p' : Pool} → Step d p p' → IsStaffed d p → IsStaffed d p'
Step-IsStaffed d (work s) h = Work-IsStaffed d s h
Step-IsStaffed d (arrive r accepted) h = record { count = h.count; running = h.running }
Step-IsStaffed d cancel h = record { count = h.count; running = λ on. absurd cc }

idle_staff : (n : ℕ) → (length (idle_workers n) ≡ n) × All AtWork (idle_workers n)
unfolding idle_workers
idle_staff zero = (refl, tt)
idle_staff (suc n) = let (count, running) = idle_staff n in (ap suc count, ((λ x. x), running))

pub Reach-IsStaffed : (d : Dispatcher) {q : Queue} {p : Pool} → Reach d q p → IsStaffed d p
Reach-IsStaffed d start =
    let (count, running) = idle_staff (to_ℕ d.concurrency) in
    record { count = count; running = λ on. running }
Reach-IsStaffed d (later before s) = Step-IsStaffed d s (Reach-IsStaffed d before)

Moved-nonempty : {a b : Worker} {ws ws' : List Worker} → Moved a b ws ws' → 0 < length ws
Moved-nonempty here = omega arith
Moved-nonempty (there m) = omega arith

none_for : (n : ℤ) → is_nonpositive n ≡ true → to_ℕ n ≡ 0
none_for (pos zero) h = refl
none_for (pos (suc n)) h = absurd cc
none_for (negsuc n) h = refl

no_workers :
    (d : Dispatcher) {p : Pool}
    → IsStaffed d p
    → is_nonpositive d.concurrency ≡ true
    → length p.workers ≡ 0
no_workers d staffed h = staffed.count ∙ none_for d.concurrency h

unstaffed-Step :
    {d : Dispatcher} {p p' : Pool} → Step d p p' → length p.workers ≡ 0 → p.sent ≡ [] → p'.sent ≡ []
unstaffed-Step (work (take m e)) none_there h = h
unstaffed-Step (work (block m e)) none_there h = h
unstaffed-Step (work (wake from m e)) none_there h = h
unstaffed-Step (work (stop m e)) none_there h = h
unstaffed-Step (work (finish w m)) none_there h =
    absurd (omega (arith, none_there, Moved-nonempty m))
unstaffed-Step (work (jam w m e)) none_there h = h
unstaffed-Step (arrive r accepted) none_there h = h
unstaffed-Step cancel none_there h = h

nobody : (ws : List Worker) → length ws ≡ 0 → ws ≡ []
nobody [] h = refl
nobody (w ∷ ws) h = absurd (omega (arith, h))

unsent :
    (d : Dispatcher) {q : Queue} {p : Pool}
    → Reach d q p
    → is_nonpositive d.concurrency ≡ true
    → p.sent ≡ []
unsent d start h = refl
unsent d (later before s) h =
    unstaffed-Step s (no_workers d (Reach-IsStaffed d before) h) (unsent d before h)

-- With a concurrency of 0 or less, the pool has no worker, and no request is ever dispatched.
pub Reach-unstaffed :
    (d : Dispatcher) {q : Queue} {p : Pool}
    → Reach d q p
    → is_nonpositive d.concurrency ≡ true
    → (p.workers ≡ []) × (p.sent ≡ [])
Reach-unstaffed d reach h = (nobody _ (no_workers d (Reach-IsStaffed d reach) h), unsent d reach h)
