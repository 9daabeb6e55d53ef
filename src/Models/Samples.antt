-- ===== src/Models/Samples.antt =====
-- Configurations and trials on which the theorems are applied.
use polyserve.Base.{ℕ, String, true, false, none, some, [], ◌∷◌, List}
use polyserve.Float.{from_ℕ}
use polyserve.Float.Decimals.{Decimal, decimal_float}
use polyserve.Models.Settings.{Config, ArchInfo, PreparedModel}
use polyserve.Models.Hardware.{GpuInfo, CpuInfo, HardwareDescriptor}
use polyserve.Models.Trial.{LevelMetrics, TrialResult}

abbrev pub plain : Config Decimal
plain = record {
  backend = "vllm";
  quant = "bf16";
  ctx = 4096;
  batch = 64;
  gpu_memory_utilization = some (decimal_float.decimal 90 2);
  n_gpu_layers = none;
  n_batch = none;
  prefill_budget = none;
  kv_dtype = "auto";
  prefix_cache = none;
  spec_decode = none;
  tp = 1;
  extra = [];
  power_limit_w = none;
  sm_clock_mhz = none;
}

abbrev pub quantized_cache : Config Decimal
quantized_cache = record plain { kv_dtype = "fp8" }

abbrev pub level : (tok_s ttft_ms concurrency : ℕ) → LevelMetrics Decimal
level tok_s ttft_ms concurrency = record {
  tok_s = from_ℕ tok_s;
  ttft_ms = some (from_ℕ ttft_ms);
  ttft_p95_ms = some (from_ℕ ttft_ms);
  tpot_ms = some (from_ℕ 20);
  peak_mem_mb = none;
  gpu_util_pct = none;
  power_w = none;
  sm_clock_mhz = none;
  joules_per_token = none;
  duration_s = from_ℕ 10;
  requests = 32;
  failed = 0;
  output_tokens = 4096;
  concurrency = concurrency;
  telemetry_source = "none";
  token_count_source = "usage";
  prompt_tokens = 100;
  errors = [];
  ttft_samples_ms = [];
  resampled = false;
}

abbrev numbered : List (LevelMetrics Decimal) → List (String × LevelMetrics Decimal)
numbered [] = []
numbered (m ∷ ms) = ("level", m) ∷ numbered ms

abbrev pub trial :
    Config Decimal → LevelMetrics Decimal → List (LevelMetrics Decimal) → TrialResult Decimal
trial c top rest = record {
  config = c;
  stage = "batch";
  metrics = record { whole = top; by_concurrency = numbered (top ∷ rest) };
  launched = true;
  error = none;
  disagg = none;
  replicas = 1;
}

-- Fast but slow to start; fast enough and prompt; and a tie with the last that adopts a strategy.
abbrev pub steady : LevelMetrics Decimal
steady = level 500 300 4

abbrev pub late_trial : TrialResult Decimal
late_trial = trial plain (level 900 700 16) []

abbrev pub prompt_trial : TrialResult Decimal
prompt_trial = trial (record plain { batch = 32 }) (level 800 600 16) (steady ∷ [])

abbrev pub tied_trial : TrialResult Decimal
tied_trial = trial quantized_cache (level 505 310 4) []

abbrev pub failed_trial : TrialResult Decimal
failed_trial = record late_trial { error = some "failed to start" }

abbrev pub trials : List (TrialResult Decimal)
trials = late_trial ∷ failed_trial ∷ tied_trial ∷ prompt_trial ∷ []

-- A card of 24 GiB with 20 GiB free, and a model of 1.5 billion parameters.
abbrev pub card : GpuInfo
card = record {
  vendor = "nvidia";
  name = "RTX 4090";
  index = 0;
  compute_capability = some (8, 9);
  vram_total_bytes = 25769803776;
  vram_free_bytes = 21474836480;
  driver_version = some "550";
  cuda_version = some "12.4";
  uuid = none;
}

abbrev processor : CpuInfo
processor = record {
  model_name = "Ryzen";
  physical_cores = 16;
  logical_cores = 32;
  avx2 = true;
  avx512 = false;
  ram_total_bytes = 68719476736;
  ram_free_bytes = 34359738368;
  arch = "x86_64";
}

abbrev pub machine : HardwareDescriptor
machine = record {
  os = "linux";
  python = "3.11";
  gpus = card ∷ [];
  cpu = processor;
  backends = [];
  probed_at = 0;
}

abbrev small_arch : ArchInfo
small_arch = record {
  architecture = "Qwen2ForCausalLM";
  num_layers = 28;
  hidden_size = 1536;
  num_attention_heads = 12;
  num_kv_heads = 2;
  head_dim = 128;
  vocab_size = 151936;
  max_position_embeddings = 32768;
  num_params = some 1500000000;
  torch_dtype = "bfloat16";
}

abbrev pub small_model : PreparedModel
small_model = record {
  spec = record { hf_id = "Qwen/Qwen2.5-1.5B-Instruct"; revision = none };
  backend = "vllm";
  arch = small_arch;
  hf_path = some "Qwen/Qwen2.5-1.5B-Instruct";
  gguf_paths = [];
  weights_bytes = ("bf16", 3221225472) ∷ [];
  hf_paths = [];
  draft_paths = [];
}
