-- ===== src/Pipeline/Tests.antt =====
-- A plan for one card with vLLM, and the theorems about the pipeline applied to it.
mod Resolved
use polyserve.Base.{
  ℕ, suc, String, ◌≡◌, refl, ◌⊎◌, Bool, true, false, Option, none, some, List, [], ◌∷◌, All,
  All-take, All-of_members, Memᴰ, take, is_some, concat_map, arith,
}
use polyserve.Float.Decimals.{Decimal, decimal_float}
use polyserve.Models.{Config, MemoryEstimate, TrialResult, ok, lookup, key}
use polyserve.Models.Samples.{plain, machine, small_model, prompt_trial}
use polyserve.Search.{Env, Search, new_search, lower, too_low}
use polyserve.Search.Retry.{ends_within}
use polyserve.Objectives.Score.{levels}
use polyserve.Stages.{Strategy}
use polyserve.Stages.Groups.{group_of}
use polyserve.Stages.Early.{IsPlanned}
use polyserve.Stages.Start.{AllSome}
use polyserve.Stages.Triples.{IsTimed}
use polyserve.Stages.Given.{IsRunner}
use polyserve.Stages.Tests.{strategy}
use polyserve.Stages.Whole.{run_stages}
use polyserve.Backends.Offered.{shares, registry-OffersAll}
use polyserve.Backends.Registry.{registry}
use polyserve.Backends.Kept.{registry-VariantsKeep}
use polyserve.Backends.Tests.{installed, fitted}
use polyserve.Pipeline.{SearchOptions, PlanResult, all_feasible, allowed_quants}
use polyserve.HfConfig.{kv_element_bytes}
use polyserve.Models.{kv_bytes_per_token}
use polyserve.Memory.{estimate, estimate_with, kv_cache_bytes, safety_margin}
use polyserve.Backends.{calibrated_memory}
use polyserve.Backends.Vllm.{vllm, prefill_variants, with_budget}
use polyserve.Pipeline.Variants.{
  with_prefix, combination_fits, search_space, expand, variants_all, runnable, fits_memory,
  engine_variants, variant_stages,
}
use polyserve.Pipeline.Plan.{Sources, prepare_and_plan}
use polyserve.Pipeline.Answered.{IsPlan, IsAnswered}
use polyserve.Pipeline.Planned.{prepare_and_plan-IsPlan}
use polyserve.Pipeline.Calibrate.{settings_for, strategy_for, space_for}
use polyserve.Pipeline.Distinct.{AreDistinct, IsKept}
use polyserve.Pipeline.Reached.{IsReached, search_space-IsReached}
use polyserve.Pipeline.Found.{calibrate-finds}

abbrev pub options : SearchOptions Decimal
options = record {
  quants = none;
  kv_quant = true;
  speculative = true;
  prefix_cache = true;
  phase_tuning = true;
  combine = true;
  budget_s = none;
  ttft_percentile = 95;
  confirm = true;
  all_levels = false;
  explore = false;
  quality_probe = false;
}

-- `auto` leaves the pre-quantized checkpoints out, until one of them is asked for.
auto_quants : allowed_quants ("bf16" ∷ "fp8" ∷ "awq" ∷ []) none ≡ some ("bf16" ∷ "fp8" ∷ [])
unfolding allowed_quants
auto_quants = refl

asked_quants : allowed_quants ("bf16" ∷ "fp8" ∷ "awq" ∷ []) (some ("awq" ∷ [])) ≡ some ("awq" ∷ [])
unfolding allowed_quants
asked_quants = refl

-- Only vLLM's model can be prepared.
abbrev sources : Sources
sources = record {
  prepare = λ name quants. lookup name (("vllm", small_model) ∷ []);
  materialize = λ name model quants. (model, true);
}

abbrev candidates : List String
candidates = "vllm" ∷ "sglang" ∷ []

prepare_and_plan-IsPlan_example :
    (t : PlanResult Decimal) × (prepare_and_plan sources
        (registry installed fitted)
        machine
        1024
        none
        true
        candidates
      ≡ some t)
    × IsPlan 1024 (registry installed fitted) t
    × All (IsAnswered t) candidates
unfolding registry
prepare_and_plan-IsPlan_example =
    prepare_and_plan-IsPlan 1024 (registry installed fitted) sources machine none true
      (registry-OffersAll installed fitted) candidates (refl, (refl, tt))

abbrev estimate_of_plain : MemoryEstimate
estimate_of_plain = record {
  config_key = "plain";
  weights = 3221225472;
  kv_cache = 1073741824;
  runtime_workspace = 1610612736;
  safety_margin = 536870912;
  total = 6442450944;
  budget = 20401094656;
  feasible = true;
}

abbrev planned : PlanResult Decimal
planned = record {
  hw = machine;
  candidates = candidates;
  prepared = ("vllm", small_model) ∷ [];
  feasible = ("vllm", (plain, estimate_of_plain) ∷ []) ∷ [];
  considered = ("vllm", 27) ∷ [];
  errors = "sglang" ∷ [];
}

planned-IsPlan : IsPlan 1024 (registry installed fitted) planned
unfolding registry
planned-IsPlan = record {
  offers = (
    (
      record {
        engine = refl;
        holds = omega arith;
        share = Memᴰ.tail (Memᴰ.tail (Memᴰ.head refl));
        fits = refl;
      },
      tt,
    ),
    tt,
  );
  known = (refl, tt);
  ready = (refl, tt);
}

shares-end : All (λ w. ends_within 3 w ≡ true) (shares {W = Decimal})
unfolding lower too_low
shares-end = (refl, (refl, (refl, (refl, (refl, (refl, tt))))))

-- An engine that always starts.
abbrev env : Env Decimal ℕ
env = record {
  now = λ x. (decimal_float.decimal x 0, suc x);
  run_trial = λ c stage x. (record prompt_trial { config = c; stage = stage }, suc x);
  sweep = none;
}

env-IsTimed : (c : Config Decimal) (stage : String) (x : ℕ) → IsTimed (env.run_trial c stage x).0
unfolding levels
env-IsTimed c stage x = record { timed = λ e. (refl, (refl, tt)) }

env-IsRunner : IsRunner 3 (with_prefix options (all_feasible planned)) env
env-IsRunner = record { given = λ c stage x. refl; timed = env-IsTimed; swept = λ g e. cc }

abbrev feasible : List (Config Decimal)
feasible = with_prefix options (all_feasible planned)

calibrate-finds_example :
    (pool : List (Config Decimal)) × (space_for
        (registry installed fitted)
        planned
        options
        machine
        true
      ≡ some pool)
    × (winner : Option (TrialResult Decimal)) × (notes : List String) × (t : Search Decimal ℕ)
    × (run_stages
          (strategy_for (registry installed fitted) planned options machine true strategy true pool)
          env
          (settings_for (registry installed fitted) planned options machine true)
          4
          feasible
          (new_search 0)
        ≡ some ((winner, notes), t))
    × AllSome
        (λ r. (ok r ≡ true) × Memᴰ r t.results × IsPlanned feasible (group_of r.config))
        winner
calibrate-finds_example =
    calibrate-finds installed fitted planned options machine true 3 1024 planned-IsPlan shares-end
      strategy true
      (λ pool k. All-take _ k pool (All-of_members (λ c. Memᴰ c pool) pool (λ c m. m))) env 0
      env-IsRunner

-- What the prefill budgets alone reach.
abbrev few_options : SearchOptions Decimal
few_options = record options { kv_quant = false; speculative = false; explore = true }

abbrev space : List (Config Decimal)
space = plain ∷ with_budget plain 2048 ∷ with_budget plain 8192 ∷ with_budget plain 16384 ∷ []

reaches_budgets :
    search_space (registry installed fitted) planned few_options machine false ≡ some space
unfolding search_space expand variants_all runnable combination_fits fits_memory engine_variants
    variant_stages registry vllm prefill_variants calibrated_memory estimate estimate_with key
    all_feasible concat_map kv_cache_bytes safety_margin kv_element_bytes kv_bytes_per_token
reaches_budgets = refl

search_space-IsReached_example :
    (found : List (Config Decimal)) × (search_space
        (registry installed fitted)
        planned
        few_options
        machine
        false
      ≡ some found)
    × All (λ c. combination_fits (registry installed fitted) planned machine c ≡ true) found
    × AreDistinct found
    × All
        (IsReached
          (registry installed fitted)
          planned
          (registry-VariantsKeep installed fitted)
          few_options
          machine
          false)
        found
    × All
        (λ c.
          (combination_fits (registry installed fitted) planned machine c ≡ false) ⊎ IsKept found c)
        (with_prefix few_options (all_feasible planned))
unfolding registry all_feasible concat_map
search_space-IsReached_example =
    search_space-IsReached (registry installed fitted) planned
      (registry-VariantsKeep installed fitted) few_options machine false ((refl, refl), tt)
