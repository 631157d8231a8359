-- ===== src/Provisioner/Examples.antt =====
-- Concrete commands of provisioner.go.
use llm_inference_control_pl.Common.{◌≡◌, refl, [], ◌∷◌, none}
use llm_inference_control_pl.Common.Decimal.{format_int, print_digits}
use llm_inference_control_pl.Common.Text.{join}
use llm_inference_control_pl.Provisioner.{provision_args, replacement_id}

replacement_used : replacement_id "w" 1234567 ≡ "w-r34567"
unfolding replacement_id format_int print_digits
replacement_used = refl

provision_args_used :
    provision_args
      (record { image = "i"; control_plane = "c:1"; extra_args = "--vram" ∷ []; run = none })
      "w"
      ("a" ∷ "b" ∷ [])
    ≡ "run" ∷ "--rm" ∷ "--detach" ∷ "--name" ∷ "w" ∷ "i" ∷ "--control-plane" ∷ "c:1" ∷ "--id" ∷ "w"
      ∷ "--models" ∷ "a,b" ∷ "--vram" ∷ []
unfolding provision_args join
provision_args_used = refl
