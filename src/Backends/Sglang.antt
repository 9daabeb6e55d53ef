-- ===== src/Backends/Sglang.antt =====
-- polyserve/backends/sglang.py: the configurations that SGLang offers.
use polyserve.Base.{
  String, not, none, some, List, [], ◌∷◌, ◌++◌, map, if◌then◌else◌, keep_if, head_or,
}
use polyserve.Float.{Float}
use polyserve.Models.{part_if, Config, HardwareDescriptor, gpu}
use polyserve.Stages.Memory.{same_number?}
use polyserve.Backends.{
  Backend, Fitted, at_least, gpu_cc, default_ctx, calibrated_memory, new_config,
}
use polyserve.Backends.Vllm.{prefill_budgets, with_budget, paged_kv_tokens, paged_configs}

unfoldable pub precisions : HardwareDescriptor → List String
precisions hw =
    let cc = gpu_cc hw in
    (if at_least cc (8, 0) then "bf16" else "fp16")
    ∷ (part_if (at_least cc (8, 9)) "fp8"
        ++ (if at_least cc (7, 5) then "awq" ∷ "gptq" ∷ [] else []))

unfoldable pub kv_dtypes : HardwareDescriptor → List String
kv_dtypes hw = elim (gpu hw) [
  | none ↦ []
  | some g ↦ part_if (at_least (gpu_cc hw) (8, 0)) "fp8_e5m2"
]

-- Unlike vLLM, the batch is not compared with the budget.
unfoldable pub prefill_variants : {W : Type 0} → Config W → List (Config W)
prefill_variants cfg =
    map (with_budget cfg)
      (keep_if (λ b. not (same_number? (some b) cfg.prefill_budget)) prefill_budgets)

module _ {W : Type 0} ⦃f : Float W⦄ where
  abbrev pub sglang_shares : List W
  sglang_shares = f.decimal 80 2 ∷ f.decimal 88 2 ∷ f.decimal 93 2 ∷ []

  unfoldable pub sglang : Fitted W → Backend W
  unfolding precisions kv_dtypes prefill_variants paged_configs calibrated_memory
  sglang fitted = record {
    name = "sglang";
    supported_quants = precisions;
    kv_dtypes = kv_dtypes;
    batch_ladder = 16 ∷ 64 ∷ 256 ∷ 512 ∷ [];
    memory_model = λ hw. calibrated_memory fitted "sglang" 2147483648 hw paged_kv_tokens "gpu";
    candidate_configs = λ hw. paged_configs "sglang" (precisions hw) sglang_shares;
    default_config = λ hw model min_ctx. some (
        new_config "sglang" (head_or "" (precisions hw)) (default_ctx model min_ctx) 256
          (some (f.decimal 88 2)));
    prefill_variants = prefill_variants;
    prefix_variants = λ cfg. [];
    spec_variants = λ cfg model. [];
  }
