-- ===== src/Memory/Budget.antt =====
-- A configuration that the planner calls feasible leaves room on the device.
use polyserve.Base.{
  ℕ, ◌+◌, ◌≤◌, ◌≡◌, refl, sym, ◌∙◌, subst, inl, inr, true, Option, some, leb, leb→le, Option-cases,
  arith,
}
use native.Mathlib.Nat.{le_trans}
use mathlib.Core.Option.{some-injective}
use polyserve.Float.{Float, from_ℕ}
use polyserve.Models.{
  Config, HardwareDescriptor, MemoryEstimate, PreparedModel, GpuInfo, gpu, weights_for,
}
use polyserve.Memory.{
  MemoryModel, min_safety_margin, budget_fraction, safety_margin, capped, available_on, on_gpu,
  estimate_with, estimate,
}

module _ {W : Type 0} ⦃f : Float W⦄ where
  safety_margin-le :
      (available : ℕ) (fraction : W) → min_safety_margin ≤ safety_margin available fraction
  unfolding safety_margin
  safety_margin-le available fraction = omega arith

  -- The budget is within 95% of what is available, and within the engine's own share of the card.
  capped-le :
      (cfg : Config W) (mm : MemoryModel W) (g : Option GpuInfo) (available : ℕ)
      → capped cfg mm g available ≤ f.trunc (f.mul budget_fraction (from_ℕ available))
  capped-le cfg mm g available = ground arith

  capped-le_share :
      (cfg : Config W) (mm : MemoryModel W) (g : Option GpuInfo) (available : ℕ) (share : W)
      (card : GpuInfo)
      → cfg.gpu_memory_utilization ≡ some share
      → g ≡ some card
      → on_gpu mm ≡ true
      → capped cfg mm g available ≤ f.trunc (f.mul share (from_ℕ card.vram_total_bytes))
  capped-le_share cfg mm g available share card e h on = ground arith

  -- How the parts of an estimate hang together.
  pub record AddsUp (cfg : Config W) (mm : MemoryModel W) (g : Option GpuInfo) (available : ℕ)
      (est : MemoryEstimate) : Type 0 where
    pub sum : est.total ≡ est.weights + est.kv_cache + est.runtime_workspace + est.safety_margin
    pub margin : min_safety_margin ≤ est.safety_margin
    pub limit : est.budget ≡ capped cfg mm g available
    pub verdict : est.feasible ≡ leb est.total est.budget

  module _ (hw : HardwareDescriptor) (model : PreparedModel) (mm : MemoryModel W) (cfg : Config W)
      (given : Option ℕ) where
    estimate_with-AddsUp :
        (size : ℕ)
        → AddsUp cfg mm
            (gpu hw)
            (available_on hw mm given)
            (estimate_with hw model mm cfg given size)
    unfolding estimate_with
    estimate_with-AddsUp size = record {
      sum = refl;
      margin = safety_margin-le (available_on hw mm given) mm.margin_fraction;
      limit = refl;
      verdict = refl;
    }

    estimate-AddsUp :
        (est : MemoryEstimate)
        → estimate hw model mm cfg given ≡ some est
        → AddsUp cfg mm (gpu hw) (available_on hw mm given) est
    unfolding estimate
    estimate-AddsUp est h = elim (Option-cases (weights_for model cfg.quant)) [
      | inl e ↦ cc (rw (e, estimate) at h)
      | inr (size, e) ↦
          subst (AddsUp cfg mm (gpu hw) (available_on hw mm given))
            (some-injective _ _ (rw (e, estimate) at h)) (estimate_with-AddsUp size)
    ]

  module _ (cfg : Config W) (mm : MemoryModel W) (g : Option GpuInfo) (available : ℕ)
      (est : MemoryEstimate) (a : AddsUp cfg mm g available est) (ok : est.feasible ≡ true) where
    abbrev taken_bytes : ℕ
    taken_bytes = est.weights + est.kv_cache + est.runtime_workspace + min_safety_margin

    fits_budget : taken_bytes ≤ capped cfg mm g available
    fits_budget =
        omega (arith, a.sum, a.margin, a.limit, leb→le est.total est.budget (sym a.verdict ∙ ok))

  module _ (hw : HardwareDescriptor) (model : PreparedModel) (mm : MemoryModel W) (cfg : Config W)
      (given : Option ℕ) (est : MemoryEstimate) where
    -- What a feasible configuration takes, and 512 MiB on top, is at most 95% of the available memory.
    -- Where the engine is given a share of the card, it is at most that share of the card too.
    pub feasible_leaves_room :
        estimate hw model mm cfg given ≡ some est
        → est.feasible ≡ true
        → (est.weights + est.kv_cache + est.runtime_workspace + min_safety_margin
            ≤ f.trunc (f.mul budget_fraction (from_ℕ (available_on hw mm given))))
          × ((share : W) (card : GpuInfo)
              → cfg.gpu_memory_utilization ≡ some share
              → gpu hw ≡ some card
              → on_gpu mm ≡ true
              → est.weights + est.kv_cache + est.runtime_workspace + min_safety_margin
                ≤ f.trunc (f.mul share (from_ℕ card.vram_total_bytes)))
    feasible_leaves_room h ok =
        let available = available_on hw mm given in
        let fits =
          fits_budget cfg mm (gpu hw) available est (estimate-AddsUp hw model mm cfg given est h)
            ok in
        (
          le_trans fits (capped-le cfg mm (gpu hw) available),
          λ share card e c on.
              le_trans fits (capped-le_share cfg mm (gpu hw) available share card e c on),
        )
