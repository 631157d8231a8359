-- ===== src/Common/Chan.antt =====
-- A buffered Go channel: a first-in first-out buffer of fixed capacity.
use Prim.Native.Nat.{ℕ, ◌≤◌}
use mathlib.Core.List.{List, [], ◌∷◌, ◌++◌}
use mathlib.Core.Option.{Option, none, some}
use llm_inference_control_pl.Common.Tests.{ltb, if◌then◌else◌}
use llm_inference_control_pl.Common.Lists.{length}

pub record Chan {ℓ} (A : Type ℓ) : Type ℓ where
  -- oldest first
  pub buf : List A
  pub cap : ℕ

module _ {ℓ} {A : Type ℓ} where
  -- make(chan A, n)
  abbrev pub make_chan : ℕ → Chan A
  make_chan n = record { buf = []; cap = n }

  -- `select { case c <- a: …; default: … }` when nobody is receiving: none is the default case.
  unfoldable pub try_send : A → Chan A → Option (Chan A)
  try_send a c =
      if ltb (length c.buf) c.cap then some (record c { buf = c.buf ++ a ∷ [] }) else none

  -- `select { case a := <-c: …; default: … }` when nobody is sending: none is the default case.
  abbrev pub take_front : List A → ℕ → Option (A × Chan A)
  take_front [] n = none
  take_front (a ∷ rest) n = some (a, record { buf = rest; cap = n })

  unfoldable pub try_receive : Chan A → Option (A × Chan A)
  try_receive c = take_front c.buf c.cap

  abbrev pub Fits : Chan A → Type 0
  Fits c = length c.buf ≤ c.cap
