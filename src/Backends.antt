-- ===== src/Backends.antt =====
-- polyserve/backends/base.py: what an engine offers to the search, the context lengths to try, and the
-- memory model with the constants fitted on a machine. `materialize` and `prepare`, which read model
-- files and remote repositories, and the command lines are not here. `Installed` is what the backends
-- ask of the machine's software, and `Fitted` the overrides of polyserve/memcal.py.
pub mod Speculative
pub mod Vllm
pub mod Sglang
pub mod LlamaCpp
pub mod Registry
pub mod Grid
pub mod Offered
pub mod Kept
pub mod Tests
use polyserve.Base.{
  ℕ, String, Bool, ◌&&◌, ◌||◌, Option, none, some, List, [], ◌∷◌, if◌then◌else◌, ltb, leb, ◌==◌,
  is_some, get_or_default, keep_if, or_list, take, min, max,
}
use polyserve.Float.{Float}
use polyserve.Models.{Config, HardwareDescriptor, PreparedModel, cc, gpu}
use polyserve.Memory.{MemoryModel, default_margin_fraction}

pub record Backend (W : Type 0) : Type 0 where
  pub name : String
  pub supported_quants : HardwareDescriptor → List String
  pub kv_dtypes : HardwareDescriptor → List String
  pub batch_ladder : List ℕ
  pub memory_model : HardwareDescriptor → MemoryModel W
  pub candidate_configs : HardwareDescriptor → PreparedModel → ℕ → List (Config W)
  -- `none` is the IndexError of an engine without a precision.
  pub default_config : HardwareDescriptor → PreparedModel → ℕ → Option (Config W)
  pub prefill_variants : Config W → List (Config W)
  pub prefix_variants : Config W → List (Config W)
  pub spec_variants : Config W → PreparedModel → List (Config W)

-- `vllm` is the (major, minor) version, `none` when it is not installed or its version is not read;
-- `draft_for` is the table of draft models, which is matched by the regular expressions of `re`.
pub record Installed : Type 0 where
  pub vllm : Option (ℕ × ℕ)
  pub flashinfer : Bool
  pub arctic_inference : Bool
  pub draft_for : String → Option String
  -- A `llama-server` whose help names `--spec-type`.
  pub llama_spec_type : Bool

pub record Fitted (W : Type 0) : Type 0 where
  pub workspace : HardwareDescriptor → String → Option ℕ
  pub margin : HardwareDescriptor → String → Option W

-- `a >= b` of two pairs.
abbrev pub at_least : ℕ × ℕ → ℕ × ℕ → Bool
at_least a b = ltb b.0 a.0 || (b.0 == a.0 && leb b.1 a.1)

-- `hw.gpu.cc if hw.gpu else (0, 0)`.
abbrev pub gpu_cc : HardwareDescriptor → ℕ × ℕ
gpu_cc hw = elim (gpu hw) [ none ↦ (0, 0) | some g ↦ cc g ]

abbrev pub standard_sizes : List ℕ
standard_sizes = 2048 ∷ 4096 ∷ 8192 ∷ 16384 ∷ 32768 ∷ 65536 ∷ 131072 ∷ []

abbrev pub grid_width : ℕ
grid_width = 3

-- Context lengths to try.
unfoldable pub ctx_grid : (max_pos min_ctx : ℕ) → List ℕ
ctx_grid max_pos min_ctx =
    if ltb max_pos min_ctx
    then []
    else take grid_width
        (or_list (keep_if (λ c. leb min_ctx c && leb c max_pos) standard_sizes) (max_pos ∷ []))

-- The context of every `default_config`.
abbrev pub default_ctx : PreparedModel → ℕ → ℕ
default_ctx model min_ctx = min (max 4096 min_ctx) model.arch.max_position_embeddings

module _ {W : Type 0} ⦃f : Float W⦄ where
  unfoldable pub calibrated_memory :
      Fitted W → String → ℕ → HardwareDescriptor → (Config W → ℕ) → String → MemoryModel W
  calibrated_memory fitted name workspace_bytes hw kv_tokens device =
      let ws = fitted.workspace hw name in
      let mf = fitted.margin hw name in
      record {
        runtime_workspace = get_or_default workspace_bytes ws;
        kv_tokens = kv_tokens;
        device = device;
        margin_fraction = get_or_default default_margin_fraction mf;
        calibrated = is_some ws || is_some mf;
      }

-- `Config(backend=…, quant=…, ctx=…, batch=…, gpu_memory_utilization=…)`.
abbrev pub new_config : {W : Type 0} → String → String → ℕ → ℕ → Option W → Config W
new_config backend quant ctx batch gmu = record {
  backend = backend;
  quant = quant;
  ctx = ctx;
  batch = batch;
  gpu_memory_utilization = gmu;
  n_gpu_layers = none;
  n_batch = none;
  prefill_budget = none;
  kv_dtype = "auto";
  prefix_cache = none;
  spec_decode = none;
  tp = 1;
  extra = [];
  power_limit_w = none;
  sm_clock_mhz = none;
}
