-- ===== src/Backends/Vllm.antt =====
-- polyserve/backends/vllm.py and polyserve/backends/vllm_cpu.py: the configurations that vLLM offers,
-- on a card and on a processor.
use polyserve.Base.{
  ℕ, ◌*◌, String, not, ◌&&◌, ◌||◌, none, some, List, [], ◌∷◌, ◌++◌, map, if◌then◌else◌, leb,
  is_some, get_or_default, keep_if, or_list, take, concat_map, head_or,
}
use polyserve.Float.{Float, from_ℕ}
use polyserve.Models.{part_if, Config, HardwareDescriptor, PreparedModel, weights_for}
use polyserve.Backends.{
  Backend, Installed, Fitted, at_least, gpu_cc, ctx_grid, default_ctx, calibrated_memory,
  new_config,
}
use polyserve.Stages.Memory.{same_number?}
use polyserve.Backends.Speculative.{
  vllm_supports_draft, vllm_supports_ngram_gpu, vllm_supports_suffix, ngram, ngram_gpu, suffix,
  draft, with_specs,
}

-- `_vllm_version`.
abbrev vllm_version : Installed → ℕ × ℕ
vllm_version i = get_or_default (0, 0) i.vllm

unfoldable pub precisions : Installed → HardwareDescriptor → List String
precisions i hw =
    let cc = gpu_cc hw in
    (if at_least cc (8, 0) then "bf16" else "fp16")
    ∷ (part_if
          (at_least cc (8, 9) || (at_least cc (8, 0) && not (at_least (vllm_version i) (0, 29))))
          "fp8"
        ++ (if at_least cc (7, 5) then "awq" ∷ "gptq" ∷ "w8a8" ∷ [] else []))

unfoldable pub kv_dtypes : Installed → HardwareDescriptor → List String
kv_dtypes i hw =
    let cc = gpu_cc hw in
    (if at_least cc (8, 9)
      then "fp8" ∷ []
      else part_if (at_least cc (8, 0) && i.flashinfer) "fp8_e5m2")
    ++ part_if (at_least cc (8, 9) && at_least (vllm_version i) (0, 29)) "int8_per_token_head"

abbrev pub prefill_budgets : List ℕ
prefill_budgets = 2048 ∷ 8192 ∷ 16384 ∷ []

abbrev draft_specs : Installed → PreparedModel → List String
draft_specs i model = elim (i.draft_for model.spec.hf_id) [
  | none ↦ []
  | some d ↦ part_if (vllm_supports_draft i) (draft d 4)
]

module _ {W : Type 0} where
  abbrev pub with_budget : Config W → ℕ → Config W
  with_budget cfg b = record cfg { prefill_budget = some b }

  -- The engine requires that the budget covers the batch.
  unfoldable pub prefill_variants : Config W → List (Config W)
  prefill_variants cfg = map (with_budget cfg) (
      keep_if (λ b. leb cfg.batch b && not (same_number? (some b) cfg.prefill_budget))
        prefill_budgets)

  unfoldable pub spec_variants : Installed → Config W → PreparedModel → List (Config W)
  spec_variants i cfg model = with_specs cfg (
      (if vllm_supports_ngram_gpu i then ngram_gpu 4 else ngram 4)
      ∷ (part_if (vllm_supports_suffix i) (suffix 24) ++ draft_specs i model))

-- Contexts up to 8192, or the smallest of the grid.
abbrev cpu_ctxs : PreparedModel → ℕ → List ℕ
cpu_ctxs model min_ctx =
    let grid = ctx_grid model.arch.max_position_embeddings min_ctx in
    or_list (keep_if (λ c. leb c 8192) grid) (take 1 grid)

module _ {W : Type 0} ⦃f : Float W⦄ where
  -- `int(cfg.ctx * cfg.batch * PAGED_KV_FRACTION)`.
  abbrev pub paged_kv_tokens : Config W → ℕ
  paged_kv_tokens cfg = f.trunc (f.mul (from_ℕ (cfg.ctx * cfg.batch)) (f.decimal 25 2))

  -- The nested loops over shares of the memory, contexts and batches.
  unfoldable pub grid_of : String → String → List W → List ℕ → List ℕ → List (Config W)
  grid_of backend quant shares ctxs batches =
      concat_map
        (λ gmu.
          concat_map (λ ctx. map (λ batch. new_config backend quant ctx batch (some gmu)) batches)
            ctxs)
        shares

  -- The grid of an engine that takes a share of the card, for each precision with known weights.
  unfoldable pub paged_configs : String → List String → List W → PreparedModel → ℕ → List (Config W)
  unfolding grid_of ctx_grid
  paged_configs backend quants shares model min_ctx =
      concat_map
        (λ quant.
          grid_of backend quant shares (ctx_grid model.arch.max_position_embeddings min_ctx)
            (16 ∷ 64 ∷ 256 ∷ []))
        (keep_if (λ q. is_some (weights_for model q)) quants)

  abbrev pub vllm_shares : List W
  vllm_shares = f.decimal 80 2 ∷ f.decimal 90 2 ∷ f.decimal 95 2 ∷ []

  unfoldable pub cpu_configs : PreparedModel → ℕ → List (Config W)
  unfolding ctx_grid
  cpu_configs model min_ctx =
      concat_map (λ ctx. map (λ b. new_config "vllm-cpu" "bf16" ctx b none) (4 ∷ 16 ∷ 64 ∷ []))
        (cpu_ctxs model min_ctx)

  module _ (i : Installed) (fitted : Fitted W) where
    unfoldable pub vllm : Backend W
    unfolding precisions kv_dtypes prefill_variants spec_variants paged_configs calibrated_memory
    vllm = record {
      name = "vllm";
      supported_quants = precisions i;
      kv_dtypes = kv_dtypes i;
      batch_ladder = 16 ∷ 64 ∷ 256 ∷ 512 ∷ [];
      memory_model = λ hw. calibrated_memory fitted "vllm" 1610612736 hw paged_kv_tokens "gpu";
      candidate_configs = λ hw. paged_configs "vllm" (precisions i hw) vllm_shares;
      default_config = λ hw model min_ctx. some (
          new_config "vllm" (head_or "" (precisions i hw)) (default_ctx model min_ctx) 256
            (some (f.decimal 90 2)));
      prefill_variants = prefill_variants;
      prefix_variants = λ cfg. [];
      spec_variants = spec_variants i;
    }

    unfoldable pub vllm_cpu : Backend W
    unfolding prefill_variants cpu_configs calibrated_memory
    vllm_cpu = record {
      name = "vllm-cpu";
      supported_quants = λ hw. "bf16" ∷ [];
      kv_dtypes = λ hw. [];
      batch_ladder = 16 ∷ 64 ∷ 256 ∷ 512 ∷ [];
      memory_model = λ hw. calibrated_memory fitted "vllm-cpu" 1073741824 hw paged_kv_tokens "cpu";
      candidate_configs = λ hw. cpu_configs;
      default_config = λ hw model min_ctx.
          some (new_config "vllm-cpu" "bf16" (default_ctx model min_ctx) 16 none);
      prefill_variants = prefill_variants;
      prefix_variants = λ cfg. [];
      spec_variants = λ cfg model. [];
    }
