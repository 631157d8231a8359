-- ===== src/Dispatcher/Abandoned.antt =====
-- streamBody of dispatcher.go when nobody receives: the gateway gives up on a request after its
-- timeout, and then never reads the request's `Chunks`, a channel of capacity 16 (gateway.go).
use llm_inference_control_pl.Common.{
  ℕ, ◌+◌, ◌-◌, ◌≡◌, List, [], ◌∷◌, ◌++◌, none, some, arith, length, length-append,
}
use llm_inference_control_pl.Common.Chan.{Chan, try_send, Fits}

-- `chunks <- chunk` for each chunk in turn: the channel, and what is unsent when a send blocks.
unfoldable pub send_unreceived : Chan (List ℕ) → List (List ℕ) → Chan (List ℕ) × List (List ℕ)
send_unreceived c [] = (c, [])
send_unreceived c (x ∷ xs) = elim (try_send x c) [
  | none ↦ (c, x ∷ xs)
  | some c' ↦ send_unreceived c' xs
]

abbrev pub chunks_capacity : ℕ
chunks_capacity = 16

pub send_lem :
    (c : Chan (List ℕ)) (xs : List (List ℕ))
    → Fits c
    → (length (send_unreceived c xs).1 ≡ length xs - (c.cap - length c.buf))
      × (length (send_unreceived c xs).0.buf + length (send_unreceived c xs).1
          ≡ length c.buf + length xs)
unfolding send_unreceived try_send
send_lem c [] h = (omega arith, omega arith)
send_lem c (x ∷ xs) h =
    ground (arith, send_lem (record c { buf = c.buf ++ x ∷ [] }) xs, length-append c.buf (x ∷ []))
