-- ===== src/Worker/Ollama.antt =====
-- worker/cmd/ollama/main.go: the models that ollama lists, the registration, and the load report. What
-- ollama answers is a parameter: none is a failed request or a body that does not decode.
use llm_inference_control_pl.Common.{ℕ, ◌+◌, ◌%◌, ◌^◌, List, [], ◌∷◌, Option, none, some, String}
use llm_inference_control_pl.Common.Float.{Float64}
use llm_inference_control_pl.Registry.{ready, WorkerInfo, LoadReport, Registry, empty_load}
use llm_inference_control_pl.Worker.{System, start_worker}

-- GET /api/tags and GET /api/ps: the names of the models, and their sizes in VRAM
pub record Ollama : Type 0 where
  pub tags : Option (List String)
  pub ps : Option (List ℕ)

pub record OllamaFlags : Type 0 where
  pub id : String
  pub ollama_addr : String
  pub provider : String
  pub hardware : String
  pub vram : ℕ
  pub cost_per_hour : Float64

-- ollamaModels; none is its error
abbrev pub ollama_models : Ollama → Option (List String)
ollama_models o = o.tags

abbrev pub ollama_info : OllamaFlags → List String → WorkerInfo
ollama_info f models = record {
  worker_id = f.id;
  address = f.ollama_addr;
  gpu_type = "";
  vram_bytes = f.vram;
  models_loaded = models;
  backend = "ollama";
  provider = f.provider;
  hardware = f.hardware;
  cost_per_hour = f.cost_per_hour;
}

-- main after ollamaModels: no answer and no models are fatal.
abbrev start_with :
    (now armed_at : ℕ) → OllamaFlags → Option (List String) → Registry → Option System
start_with now armed_at f none r = none
start_with now armed_at f (some []) r = none
start_with now armed_at f (some (m ∷ models)) r =
    start_worker now armed_at (ollama_info f (m ∷ models)) ready r

-- main up to the goroutines
unfoldable pub start_ollama : (now armed_at : ℕ) → OllamaFlags → Ollama → Registry → Option System
start_ollama now armed_at f o r = start_with now armed_at f (ollama_models o) r

-- The loop of ollamaLoad, in uint64.
unfoldable pub total_vram : List ℕ → ℕ → ℕ
total_vram [] total = total
total_vram (size ∷ sizes) total = total_vram sizes ((total + size) % 2 ^ 64)

abbrev loaded : String → Option (List ℕ) → LoadReport
loaded id none = empty_load id
loaded id (some sizes) = record (empty_load id) { vram_used_bytes = total_vram sizes 0 }

-- ollamaLoad
unfoldable pub ollama_load : String → Ollama → LoadReport
ollama_load id o = loaded id o.ps
