-- ===== src/Provisioner.antt =====
-- control-plane/provisioner/provisioner.go: the command that starts a replacement worker. Running it
-- is a parameter.
mod Examples
use Prim.Native.String.{◌++◌ as str_append}
use llm_inference_control_pl.Common.{
  ℕ, ◌%◌, ◌≡◌, refl, Bool, true, Option, none, some, List, [], ◌∷◌, ◌++◌, String,
}
use llm_inference_control_pl.Common.Text.{join}
use llm_inference_control_pl.Common.Decimal.{format_int}

pub record DockerProvisioner : Type 0 where
  pub image : String
  pub control_plane : String
  pub extra_args : List String
  pub run : Option (List String → Bool)

-- What docker passes on to the worker's binary.
abbrev pub worker_args : DockerProvisioner → String → List String → List String
worker_args p worker_id models =
    ("--control-plane" ∷ p.control_plane ∷ "--id" ∷ worker_id ∷ "--models" ∷ join "," models ∷ [])
    ++ p.extra_args

unfoldable pub provision_args : DockerProvisioner → String → List String → List String
provision_args p worker_id models =
    "run" ∷ "--rm" ∷ "--detach" ∷ "--name" ∷ worker_id ∷ p.image ∷ worker_args p worker_id models

-- executor: the injected command, or docker itself
abbrev pub executor : DockerProvisioner → (List String → Bool) → List String → Bool
executor p docker = or_docker p.run
  where
    or_docker : Option (List String → Bool) → List String → Bool
    or_docker none = docker
    or_docker (some run) = run

-- Provision: whether `docker` has accepted the command
unfoldable pub provision : DockerProvisioner → (List String → Bool) → String → List String → Bool
provision p docker worker_id models = executor p docker (provision_args p worker_id models)

-- NoopProvisioner
unfoldable pub provision_noop : String → List String → Bool
provision_noop evicted_id models = true

-- The id of the replacement, from the clock in milliseconds.
unfoldable pub replacement_id : String → ℕ → String
replacement_id evicted_id now_ms =
    str_append evicted_id (str_append "-r" (format_int (now_ms % 100000)))

-- OnEvicted
unfoldable pub on_evicted :
    DockerProvisioner → (List String → Bool) → ℕ → String → List String → Bool
on_evicted p docker now_ms evicted_id models =
    provision p docker (replacement_id evicted_id now_ms) models
