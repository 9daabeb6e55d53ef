-- ===== src/Backends/Tests.antt =====
-- The engines with vLLM 0.29 installed, and the theorems about what they offer applied to them.
use polyserve.Base.{◌≤◌, ◌<◌, ◌≡◌, refl, ◌⊎◌, true, none, some, [], ◌∷◌, All, length}
use polyserve.Float.Decimals.{Decimal, decimal_float}
use polyserve.Models.Samples.{plain, machine}
use polyserve.Backends.{Installed, Fitted, ctx_grid}
use polyserve.Backends.Vllm.{precisions, prefill_variants, kv_dtypes, with_budget}
use polyserve.Backends.Registry.{registry}
use polyserve.Backends.Grid.{ctx_grid-IsSmallest, InRange, IsSmallest, sizes}
use polyserve.Backends.Offered.{OffersAll, registry-OffersAll}

abbrev pub installed : Installed
installed = record {
  vllm = some (0, 29);
  flashinfer = true;
  arctic_inference = true;
  draft_for = λ id. some "Qwen/Qwen2.5-0.5B-Instruct";
  llama_spec_type = true;
}

abbrev pub fitted : Fitted Decimal
fitted = record { workspace = λ hw name. none; margin = λ hw name. none }

three_sizes : ctx_grid 32768 3000 ≡ 4096 ∷ 8192 ∷ 16384 ∷ []
unfolding ctx_grid
three_sizes = refl

model_maximum : ctx_grid 1500 100 ≡ 1500 ∷ []
unfolding ctx_grid
model_maximum = refl

card_precisions : precisions installed machine ≡ "bf16" ∷ "fp8" ∷ "awq" ∷ "gptq" ∷ "w8a8" ∷ []
unfolding precisions
card_precisions = refl

card_caches : kv_dtypes installed machine ≡ "fp8" ∷ "int8_per_token_head" ∷ []
unfolding kv_dtypes
card_caches = refl

-- A batch of 4096 leaves out the smallest budget.
covering_budgets :
    prefill_variants (record plain { batch = 4096 })
    ≡ with_budget (record plain { batch = 4096 }) 8192
      ∷ with_budget (record plain { batch = 4096 }) 16384
      ∷ []
unfolding prefill_variants
covering_budgets = refl

ctx_grid-IsSmallest_example :
    ((32768 < 3000) × (ctx_grid 32768 3000 ≡ []))
    ⊎ ((3000 ≤ 32768)
        × (0 < length (ctx_grid 32768 3000))
        × (length (ctx_grid 32768 3000) ≤ 3)
        × All (InRange 32768 3000) (ctx_grid 32768 3000)
        × All (IsSmallest 32768 3000 (ctx_grid 32768 3000)) (sizes 32768 3000))
ctx_grid-IsSmallest_example = ctx_grid-IsSmallest 32768 3000

registry-OffersAll_example : All OffersAll (registry installed fitted)
registry-OffersAll_example = registry-OffersAll installed fitted
