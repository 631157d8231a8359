-- ===== src/Router/Untried.antt =====
-- The workers that are left to try.
use llm_inference_control_pl.Common.{
  ◌+◌, ◌≤◌, ◌≡◌, refl, true, false, not, List, [], ◌∷◌, String, str_eq, eq_iff, arith, All, length,
  tally, length-select,
}
use llm_inference_control_pl.Registry.{WorkerEntry}
use llm_inference_control_pl.Router.{id_of}
use llm_inference_control_pl.Registry.Catalog.{IsFleet}
use llm_inference_control_pl.Router.Handler.{Upstream, tried, untried}

none_with :
    (id : String) (w : WorkerEntry) (ws : List WorkerEntry)
    → str_eq id (id_of w) ≡ true
    → All (λ x. str_eq (id_of x) (id_of w) ≡ false) ws
    → tally (λ x. str_eq id (id_of x)) ws ≡ 0
none_with id w [] e h = refl
none_with id w (x ∷ ws) e h = ground (
  arith,
  none_with id w ws e h.1,
  eq_iff id (id_of w),
  eq_iff id (id_of x),
  eq_iff (id_of x) (id_of w),
)

at_most_one :
    (id : String) (ws : List WorkerEntry) → IsFleet ws → tally (λ x. str_eq id (id_of x)) ws ≤ 1
at_most_one id [] h = omega arith
at_most_one id (w ∷ ws) h = ground (arith, at_most_one id ws h.1, none_with id w ws)

tally-tried_cons :
    (id : String) (a : Upstream) (log : List (String × Upstream)) (ws : List WorkerEntry)
    → tally (λ w. tried (id_of w) ((id, a) ∷ log)) ws
      ≤ tally (λ w. str_eq id (id_of w)) ws + tally (λ w. tried (id_of w) log) ws
tally-tried_cons id a log [] = omega arith
tally-tried_cons id a log (w ∷ ws) = ground (arith, tally-tried_cons id a log ws)

tally-tried_nil : (ws : List WorkerEntry) → tally (λ w. tried (id_of w) []) ws ≡ 0
tally-tried_nil [] = refl
tally-tried_nil (w ∷ ws) = omega (arith, tally-tried_nil ws)

tally-tried-le :
    (log : List (String × Upstream)) (ws : List WorkerEntry)
    → IsFleet ws
    → tally (λ w. tried (id_of w) log) ws ≤ length log
tally-tried-le [] ws h = omega (arith, tally-tried_nil ws)
tally-tried-le ((id, a) ∷ log) ws h =
    omega (arith, tally-tried_cons id a log ws, at_most_one id ws h, tally-tried-le log ws h)

tally-not :
    (log : List (String × Upstream)) (ws : List WorkerEntry)
    → tally (λ w. not (tried (id_of w) log)) ws + tally (λ w. tried (id_of w) log) ws ≡ length ws
tally-not log [] = refl
tally-not log (w ∷ ws) = ground (arith, tally-not log ws)

-- At most as many workers as there were attempts are missing.
pub length-untried :
    (log : List (String × Upstream)) (ws : List WorkerEntry)
    → IsFleet ws
    → length ws ≤ length (untried log ws) + length log
length-untried log ws h = omega (
  arith,
  length-select (λ w. not (tried (id_of w) log)) ws,
  tally-not log ws,
  tally-tried-le log ws h,
)
