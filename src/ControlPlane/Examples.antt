-- ===== src/ControlPlane/Examples.antt =====
-- Concrete control planes.
use llm_inference_control_pl.Common.{◌≡◌, refl, true, false, none}
use llm_inference_control_pl.Scaler
use llm_inference_control_pl.Scaler.{with_min_healthy, with_dead_grace, with_on_worker_evicted}
use llm_inference_control_pl.ControlPlane.{assemble, default_flags}

-- The scaler calls the provisioner exactly if an image is given.
hooked_with_image :
    ((assemble (record default_flags { docker_image = "i" })).scaler.hook_set ≡ true)
    × ((assemble default_flags).scaler.hook_set ≡ false)
    × ((assemble default_flags).provisioner ≡ none)
unfolding assemble with_min_healthy with_dead_grace with_on_worker_evicted Scaler.new
hooked_with_image = (refl, refl, refl)
