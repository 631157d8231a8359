-- ===== src/Worker/Mock.antt =====
-- worker/cmd/mock/main.go: the flags, the registration, and the load that is made up. The numbers of
-- math/rand are a parameter, and so is float64 arithmetic.
use llm_inference_control_pl.Common.{
  ℕ, Bool, ◌||◌, ◌+◌, ◌*◌, ◌/◌, ◌%◌, ◌^◌, List, [], ◌∷◌, Option, none, some, String, str_eq, ◌||◌,
  if◌then◌else◌,
}
use llm_inference_control_pl.Common.Text.{split}
use llm_inference_control_pl.Common.Float.{Float64}
use llm_inference_control_pl.Registry.{
  WorkerState, starting, ready, busy, WorkerInfo, LoadReport, Registry, empty_load,
}
use llm_inference_control_pl.Slo.{FloatOps}
use llm_inference_control_pl.Worker.{System, start_worker}

-- The flags that the registration uses.
pub record MockFlags : Type 0 where
  pub id : String
  pub addr : String
  pub models : String
  pub backend : String
  pub provider : String
  pub hardware : String
  pub vram : ℕ
  pub cost_per_hour : Float64

abbrev pub default_mock : MockFlags
default_mock = record {
  id = "mock-worker-1";
  addr = "localhost:8080";
  models = "llama3.2:3b";
  backend = "mock";
  provider = "local";
  hardware = "cpu";
  vram = 0;
  cost_per_hour = 0;
}

-- How package flag reads a uint64, a float64 and a duration; none and false are syntax errors.
pub record FlagValues : Type 0 where
  pub uint64 : String → Option ℕ
  pub float64 : String → Option Float64
  pub is_duration : String → Bool

abbrev set_vram : Option ℕ → MockFlags → Option MockFlags
set_vram none f = none
set_vram (some n) f = some (record f { vram = n })

abbrev set_cost : Option Float64 → MockFlags → Option MockFlags
set_cost none f = none
set_cost (some x) f = some (record f { cost_per_hour = x })

-- flag.Parse for the flags in the form "--name value"; none ends the process with a usage error. The
-- address of the control plane and the durations are not part of the registration. The flag --crash,
-- which takes no value, is left out.
abbrev pub set_flag : FlagValues → String → String → MockFlags → Option MockFlags
set_flag v name value f =
    if str_eq name "--control-plane"
    then some f
    else if str_eq name "--id"
    then some (record f { id = value })
    else if str_eq name "--addr"
    then some (record f { addr = value })
    else if str_eq name "--models"
    then some (record f { models = value })
    else if str_eq name "--backend"
    then some (record f { backend = value })
    else if str_eq name "--provider"
    then some (record f { provider = value })
    else if str_eq name "--hardware"
    then some (record f { hardware = value })
    else if str_eq name "--vram"
    then set_vram (v.uint64 value) f
    else if str_eq name "--cost-per-hour"
    then set_cost (v.float64 value) f
    else if str_eq name "--model-load-time" || str_eq name "--report-load-every"
    then (if v.is_duration value then some f else none)
    else none

abbrev pub then_parse : (MockFlags → Option MockFlags) → Option MockFlags → Option MockFlags
then_parse rest none = none
then_parse rest (some f) = rest f

unfoldable pub parse_args : FlagValues → List String → MockFlags → Option MockFlags
parse_args v [] f = some f
parse_args v (name ∷ []) f = none
parse_args v (name ∷ value ∷ args) f = then_parse (parse_args v args) (set_flag v name value f)

abbrev pub mock_info : MockFlags → WorkerInfo
mock_info f = record {
  worker_id = f.id;
  address = f.addr;
  gpu_type = f.hardware;
  vram_bytes = f.vram;
  models_loaded = split "," f.models;
  backend = f.backend;
  provider = f.provider;
  hardware = f.hardware;
  cost_per_hour = f.cost_per_hour;
}

-- main up to the goroutines
unfoldable pub start_mock : (now armed_at : ℕ) → MockFlags → Registry → Option System
start_mock now armed_at f r = start_worker now armed_at (mock_info f) starting r

-- The two numbers of rand.Float64 and that of rand.Intn, in the order of the calls.
pub record Draws : Type 0 where
  pub rate : Float64
  pub latency : Float64
  pub number : ℕ → ℕ

abbrev share : ℕ → ℕ → ℕ
share vram percent = vram * percent % 2 ^ 64 / 100

-- fakeLoad; in the BUSY case the first number of rand.Intn is `queued`.
unfoldable pub fake_load :
    FloatOps → Draws → (queued : ℕ → ℕ) → String → WorkerState → ℕ → LoadReport
fake_load f d queued id ready vram = record {
  worker_id = id;
  queue_depth = 0;
  requests_per_sec = f.mul d.rate (f.of_int 2);
  avg_latency_ms = f.add (f.of_int 80) (f.mul d.latency (f.of_int 40));
  vram_used_bytes = share vram (30 + d.number 20);
}
fake_load f d queued id busy vram = record {
  worker_id = id;
  queue_depth = (1 + queued 8) % 2 ^ 32;
  requests_per_sec = f.add (f.of_int 5) (f.mul d.rate (f.of_int 15));
  avg_latency_ms = f.add (f.of_int 200) (f.mul d.latency (f.of_int 300));
  vram_used_bytes = share vram (60 + d.number 30);
}
fake_load f d queued id _ vram = empty_load id
