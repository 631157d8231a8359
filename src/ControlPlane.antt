-- ===== src/ControlPlane.antt =====
-- main of control-plane/cmd/server/main.go: the parts that its flags make, and the lines of the status
-- printer. The listeners and the signals are not modelled.
mod Examples
use llm_inference_control_pl.Common.{
  ℕ, ◌/◌, ◌*◌, ◌^◌, Bool, true, false, List, [], ◌∷◌, map, Option, none, some, String, str_eq, ℤ,
  pos, if◌then◌else◌,
}
use llm_inference_control_pl.Common.Float.{Float64}
use llm_inference_control_pl.Registry
use llm_inference_control_pl.Registry.{WorkerState, WorkerEntry, Registry, default_dead_timeout}
use llm_inference_control_pl.Registry.Queries.{list_workers}
use llm_inference_control_pl.Router
use llm_inference_control_pl.Router.{Router, set_request_hook}
use llm_inference_control_pl.Scaler
use llm_inference_control_pl.Scaler.{
  Scaler, with_min_healthy, with_dead_grace, with_on_worker_evicted,
}
use llm_inference_control_pl.Provisioner.{DockerProvisioner}

-- The flags, without the addresses to listen on.
pub record Flags : Type 0 where
  pub min_healthy : ℤ
  pub dead_grace : ℕ
  pub docker_image : String
  pub docker_cp_addr : String

abbrev pub default_flags : Flags
default_flags = record {
  min_healthy = pos 1;
  dead_grace = 30 * 10 ^ 9;
  docker_image = "";
  docker_cp_addr = "host.docker.internal:50051";
}

pub record ControlPlane : Type 0 where
  pub registry : Registry
  pub router : Router
  pub scaler : Scaler
  pub provisioner : Option DockerProvisioner

-- if *dockerImage != "" { … }
abbrev pub make_provisioner : Flags → Option DockerProvisioner
make_provisioner f =
    if str_eq f.docker_image ""
    then none
    else some (record {
      image = f.docker_image;
      control_plane = f.docker_cp_addr;
      extra_args = [];
      run = none;
    })

abbrev pub hook_evictions : Option DockerProvisioner → Scaler → Scaler
hook_evictions none s = s
hook_evictions (some p) s = with_on_worker_evicted s

-- main, up to the goroutines
unfoldable pub assemble : Flags → ControlPlane
assemble f = record {
  registry = Registry.new default_dead_timeout;
  router = set_request_hook true (Router.new false);
  scaler =
      hook_evictions (make_provisioner f)
        (with_dead_grace f.dead_grace (with_min_healthy f.min_healthy Scaler.new));
  provisioner = make_provisioner f;
}

-- A line of the status printer.
pub record StatusLine : Type 0 where
  pub worker_id : String
  pub state : WorkerState
  pub queue_depth : ℕ
  pub requests_per_sec : Float64
  pub avg_latency_ms : Float64
  pub vram_mb : ℕ

abbrev pub status_line : WorkerEntry → StatusLine
status_line e = record {
  worker_id = e.info.worker_id;
  state = e.state;
  queue_depth = e.load.queue_depth;
  requests_per_sec = e.load.requests_per_sec;
  avg_latency_ms = e.load.avg_latency_ms;
  vram_mb = e.load.vram_used_bytes / 1024 / 1024;
}

-- What a tick of the status printer prints, without its heading.
unfoldable pub status_lines : Registry → List StatusLine
status_lines r = map status_line (list_workers r)
