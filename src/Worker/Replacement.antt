-- ===== src/Worker/Replacement.antt =====
-- From OnWorkerEvicted of the scaler over the provisioner of provisioner.go, as main of
-- control-plane/cmd/server/main.go makes it, to the registration of worker/cmd/mock/main.go: what a
-- replacement registers.
use llm_inference_control_pl.Common.{
  ◌≡◌, ◌≢◌, refl, List, [], ◌∷◌, some, String, str_eq, All, inl, inr, Bool-cases,
}
use llm_inference_control_pl.Common.Text.{join, Lacks, split-join}
use llm_inference_control_pl.Provisioner.{DockerProvisioner, worker_args, provision_args}
use llm_inference_control_pl.ControlPlane.{Flags, make_provisioner}
use llm_inference_control_pl.Worker.Mock.{
  MockFlags, FlagValues, default_mock, mock_info, parse_args,
}

-- main never sets ExtraArgs.
made-extra_args :
    (flags : Flags) (p : DockerProvisioner) → make_provisioner flags ≡ some p → p.extra_args ≡ []
made-extra_args flags p made = elim (Bool-cases (str_eq flags.docker_image "")) [
  | inl t ↦ let h = rw t at made in absurd cc
  | inr t ↦ let h = rw t at made in cc
]

parsed :
    (v : FlagValues) (p : DockerProvisioner) (id : String) (models : List String)
    → p.extra_args ≡ []
    → parse_args v (worker_args p id models) default_mock
      ≡ some (record default_mock { id = id; models = join "," models })
unfolding parse_args
parsed v p id models none_extra = rw none_extra refl

-- The worker's binary reads its arguments of the docker command for a replacement, with the provisioner
-- that main makes, without an error, and registers the new id with the models of the evicted worker,
-- if there are any and no name has a comma; its address is the default of the flag.
pub provision_args-replaces :
    (flags : Flags) (v : FlagValues) (p : DockerProvisioner) (id : String) (models : List String)
    → make_provisioner flags ≡ some p
    → models ≢ []
    → All (Lacks ",") models
    → (args : List String) × (provision_args p id models
        ≡ "run" ∷ "--rm" ∷ "--detach" ∷ "--name" ∷ id ∷ p.image ∷ args)
      × (f : MockFlags) × (parse_args v args default_mock ≡ some f)
      × ((mock_info f).worker_id ≡ id)
      × ((mock_info f).models_loaded ≡ models)
      × ((mock_info f).address ≡ "localhost:8080")
unfolding provision_args
provision_args-replaces flags v p id models made some_model plain = (
  worker_args p id models,
  refl,
  record default_mock { id = id; models = join "," models },
  parsed v p id models (made-extra_args flags p made),
  refl,
  split-join "," models some_model plain,
  refl,
)
