-- ===== src/Memory.antt =====
-- polyserve/memory.py: what a configuration would take of the device, and which configurations fit.
-- `none` is the KeyError of a weight size that was not recorded.
pub mod Budget
pub mod Plan
mod Tests
use polyserve.Base.{
  ℕ, zero, suc, ◌+◌, ◌*◌, ◌/◌, min, max, String, Bool, true, false, not, ◌&&◌, ◌||◌, Option, none,
  some, List, [], ◌∷◌, if◌then◌else◌, ltb, leb, str_eq, is_some, get_or_default,
}
use polyserve.Float.{Float, nought, from_ℕ, below, larger, smaller}
use polyserve.HfConfig.{kv_element_bytes}
use polyserve.Models.{
  Config, HardwareDescriptor, MemoryEstimate, PreparedModel, GpuInfo, gpu, kv_bytes_per_token,
  weights_for, key,
}

-- 512 * MiB.
abbrev pub min_safety_margin : ℕ
min_safety_margin = 512 * (1024 * 1024)

module _ {W : Type 0} ⦃f : Float W⦄ where
  abbrev pub budget_fraction : W
  budget_fraction = f.decimal 95 2

  abbrev pub default_margin_fraction : W
  default_margin_fraction = f.decimal 5 2

  unfoldable pub safety_margin : ℕ → W → ℕ
  safety_margin available fraction =
      max (f.trunc (f.mul fraction (from_ℕ available))) min_safety_margin

  unfoldable pub kv_cache_bytes : PreparedModel → Config W → ℕ → ℕ
  kv_cache_bytes model cfg kv_tokens =
      let kv_dtype = if str_eq cfg.kv_dtype "auto" then model.arch.torch_dtype else cfg.kv_dtype in
      f.trunc (
        f.mul (f.mul (from_ℕ (kv_bytes_per_token model.arch 1)) (kv_element_bytes kv_dtype))
          (from_ℕ kv_tokens))

pub record MemoryModel (W : Type 0) : Type 0 where
  pub runtime_workspace : ℕ
  pub kv_tokens : Config W → ℕ
  pub device : String
  pub margin_fraction : W
  pub calibrated : Bool

module _ {W : Type 0} ⦃f : Float W⦄ where
  abbrev pub on_gpu : MemoryModel W → Bool
  on_gpu mm = str_eq mm.device "gpu"

  -- `min(1.0, max(0.0, n_gpu_layers / max(num_layers, 1)))`.
  abbrev pub offload_fraction : PreparedModel → ℕ → W
  offload_fraction model n_gpu_layers =
      smaller (from_ℕ 1)
        (larger nought (f.div (from_ℕ n_gpu_layers) (from_ℕ (max model.arch.num_layers 1))))

  -- Only the offloaded fraction of `size` lands on the device.
  abbrev pub offloaded : PreparedModel → Config W → MemoryModel W → ℕ → ℕ
  offloaded model cfg mm size = elim cfg.n_gpu_layers [
    | none ↦ size
    | some n ↦ if on_gpu mm then f.trunc (f.mul (from_ℕ size) (offload_fraction model n)) else size
  ]

  -- Tensor parallel: sharded across GPUs.
  abbrev pub sharded : Config W → ℕ → ℕ
  sharded cfg size = if ltb 1 cfg.tp then size / cfg.tp else size

  abbrev pub available_on : HardwareDescriptor → MemoryModel W → Option ℕ → ℕ
  available_on hw mm (some a) = a
  available_on hw mm none = elim (gpu hw) [
    | none ↦ hw.cpu.ram_free_bytes
    | some g ↦ if on_gpu mm then g.vram_free_bytes else hw.cpu.ram_free_bytes
  ]

  -- What the engine may take of `available` bytes: its own cap too, where it has one.
  abbrev pub capped : Config W → MemoryModel W → Option GpuInfo → ℕ → ℕ
  capped cfg mm g available =
      let budget = f.trunc (f.mul budget_fraction (from_ℕ available)) in
      elim cfg.gpu_memory_utilization [
        | none ↦ budget
        | some share ↦ elim g [
          | none ↦ budget
          | some card ↦
              if on_gpu mm
              then min (min budget (f.trunc (f.mul share (from_ℕ card.vram_total_bytes)))) budget
              else budget
        ]
      ]

  module _ (hw : HardwareDescriptor) (model : PreparedModel) (mm : MemoryModel W) where
    -- The estimate, once the weights' size is known.
    unfoldable pub estimate_with : Config W → Option ℕ → ℕ → MemoryEstimate
    unfolding kv_cache_bytes safety_margin key
    estimate_with cfg given size =
        let weights = sharded cfg (offloaded model cfg mm size) in
        let kv =
          sharded cfg (offloaded model cfg mm (kv_cache_bytes model cfg (mm.kv_tokens cfg))) in
        let available = available_on hw mm given in
        let margin = safety_margin available mm.margin_fraction in
        let total = weights + kv + mm.runtime_workspace + margin in
        let budget = capped cfg mm (gpu hw) available in
        record {
          config_key = key cfg;
          weights = weights;
          kv_cache = kv;
          runtime_workspace = mm.runtime_workspace;
          safety_margin = margin;
          total = total;
          budget = budget;
          feasible = leb total budget;
        }

    unfoldable pub estimate : Config W → Option ℕ → Option MemoryEstimate
    estimate cfg given = elim (weights_for model cfg.quant) [
      | none ↦ none
      | some size ↦ some (estimate_with cfg given size)
    ]

    -- Whether the layers that stay on the host fit its memory.
    unfoldable pub host_fits : Config W → ℕ → Bool
    unfolding safety_margin
    host_fits cfg size = elim cfg.n_gpu_layers [
      | none ↦ true
      | some n ↦
          if on_gpu mm && ltb n model.arch.num_layers
          then (let frac_cpu =
                f.sub (from_ℕ 1) (f.div (from_ℕ n) (from_ℕ (max model.arch.num_layers 1))) in
              let host_need =
                f.trunc (f.mul (from_ℕ size) frac_cpu)
                + safety_margin {W = W} hw.cpu.ram_free_bytes default_margin_fraction in
              not (below (f.mul budget_fraction (from_ℕ hw.cpu.ram_free_bytes)) (from_ℕ host_need)))
          else true
    ]

    -- Whether a configuration is kept, with its estimate.
    unfoldable pub consider : Config W → ℕ → Option MemoryEstimate
    consider cfg size =
        let est = estimate_with cfg none size in
        if est.feasible && host_fits cfg size then some est else none

    unfoldable pub plan : List (Config W) → Option (List (Config W × MemoryEstimate))
    plan [] = some []
    plan (cfg ∷ configs) = elim (weights_for model cfg.quant) [
      | none ↦ none
      | some size ↦ elim (plan configs) [
        | none ↦ none
        | some kept ↦ elim (consider cfg size) [
          | none ↦ some kept
          | some est ↦ some ((cfg, est) ∷ kept)
        ]
      ]
    ]
