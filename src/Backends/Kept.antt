-- ===== src/Backends/Kept.antt =====
-- About the variants that each engine proposes: `prefill_variants`, `prefix_variants` and
-- `spec_variants` of polyserve/backends.
use polyserve.Base.{ℕ, String, ◌≡◌, refl, List, map, All, All-map, All-of_members}
use polyserve.Float.{Float}
use polyserve.Models.{Config, PreparedModel}
use polyserve.Backends.{Backend, Installed, Fitted}
use polyserve.Backends.Speculative.{with_specs}
use polyserve.Backends.Vllm.{vllm, vllm_cpu, with_budget}
use polyserve.Backends.Vllm
use polyserve.Backends.Sglang.{sglang}
use polyserve.Backends.Sglang
use polyserve.Backends.LlamaCpp.{llamacpp_cuda, llamacpp_cpu, with_option}
use polyserve.Backends.LlamaCpp
use polyserve.Backends.Registry.{registry}

-- The same engine, precision and shape, which asks for the same share of the card.
pub record Keeps {W : Type 0} (c v : Config W) : Type 0 where
  pub engine : v.backend ≡ c.backend
  pub precision : v.quant ≡ c.quant
  pub context : v.ctx ≡ c.ctx
  pub slots : v.batch ≡ c.batch
  pub share : v.gpu_memory_utilization ≡ c.gpu_memory_utilization

module _ {W : Type 0} (c : Config W) where
  -- A list of copies of `c` that each differ in other fields.
  map-Keeps :
      {A : Type 0} (g : A → Config W) (xs : List A)
      → ((x : A) → Keeps c (g x))
      → All (Keeps c) (map g xs)
  map-Keeps g xs k =
      All-map (λ x. Unit {0}) (Keeps c) g (λ x u. k x) xs
        (All-of_members (λ x. Unit {0}) xs (λ x m. tt))

  budget-Keeps : (b : ℕ) → Keeps c (with_budget c b)
  budget-Keeps b = record {
    engine = refl;
    precision = refl;
    context = refl;
    slots = refl;
    share = refl;
  }

  specs-Keep : (specs : List String) → All (Keeps c) (with_specs c specs)
  unfolding with_specs
  specs-Keep specs =
      map-Keeps _ _ (λ s. record {
        engine = refl;
        precision = refl;
        context = refl;
        slots = refl;
        share = refl;
      })

  ubatch-Keep : All (Keeps c) (LlamaCpp.prefill_variants c)
  unfolding LlamaCpp.prefill_variants
  ubatch-Keep =
      map-Keeps _ _ (λ ub. record {
        engine = refl;
        precision = refl;
        context = refl;
        slots = refl;
        share = refl;
      })

  prefix-Keep : All (Keeps c) (LlamaCpp.prefix_variants c)
  unfolding LlamaCpp.prefix_variants
  prefix-Keep =
      map-Keeps (with_option c) _ (λ o. record {
        engine = refl;
        precision = refl;
        context = refl;
        slots = refl;
        share = refl;
      })

-- The variants of an engine keep the engine, the precision, the shape and the share of the card.
abbrev pub VariantsKeep : {W : Type 0} → String × Backend W → Type 0
VariantsKeep {W} e =
    (c : Config W)
    → All (Keeps c) (e.1.prefill_variants c)
      × All (Keeps c) (e.1.prefix_variants c)
      × ((model : PreparedModel) → All (Keeps c) (e.1.spec_variants c model))

module _ {W : Type 0} ⦃f : Float W⦄ (i : Installed) (fitted : Fitted W) where
  -- So it is for every engine of the registry.
  pub registry-VariantsKeep : All VariantsKeep (registry i fitted)
  unfolding registry vllm sglang llamacpp_cuda llamacpp_cpu vllm_cpu Vllm.prefill_variants
      Sglang.prefill_variants Vllm.spec_variants LlamaCpp.spec_variants
  registry-VariantsKeep = (
    λ c. (map-Keeps c _ _ (budget-Keeps c), tt, λ model. specs-Keep c _),
    (
      λ c. (map-Keeps c _ _ (budget-Keeps c), tt, λ model. tt),
      (
        λ c. (ubatch-Keep c, prefix-Keep c, λ model. specs-Keep c _),
        (
          λ c. (ubatch-Keep c, prefix-Keep c, λ model. specs-Keep c _),
          (λ c. (map-Keeps c _ _ (budget-Keeps c), tt, λ model. tt), tt),
        ),
      ),
    ),
  )
