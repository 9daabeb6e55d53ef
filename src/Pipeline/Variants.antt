-- ===== src/Pipeline/Variants.antt =====
-- polyserve/pipeline.py: `combination_fits`, `kv_variants_fn` and `search_space`, the configurations
-- that a calibration can reach. `registry` has the engines; `none` is the KeyError of an engine that is
-- not there, or that has no prepared model.
use text.Mathlib.Text.{starts_with}
use polyserve.Base.{
  ℕ, String, Bool, true, false, not, ◌&&◌, Option, none, some, List, [], ◌∷◌, ◌++◌, map,
  if◌then◌else◌, str_eq, ltb, leb, get_or_default, keep_if, concat_map, any,
}
use polyserve.Float.{Float}
use polyserve.Models.{Config, HardwareDescriptor, PreparedModel, lookup, gpu, key}
use polyserve.Memory.{MemoryModel, estimate}
use polyserve.Backends.{Backend}
use polyserve.Stages.{Variants}
use polyserve.Pipeline.{SearchOptions, PlanResult, all_feasible}

-- A card of less than 32 GiB.
abbrev small_gpu : HardwareDescriptor → Bool
small_gpu hw = elim (gpu hw) [ none ↦ false | some g ↦ ltb g.vram_total_bytes 34359738368 ]

-- A prefill budget that is set and less than `b`.
abbrev pub budget_below : Option ℕ → ℕ → Bool
budget_below none b = false
budget_below (some p) b = ltb p b

abbrev pub when {ℓ} : {A : Type ℓ} → Bool → A → List A
when test a = if test then a ∷ [] else []

module _ {W : Type 0} where
  abbrev budget_short : Config W → Bool
  budget_short c = budget_below c.prefill_budget c.batch && not (starts_with c.backend "llamacpp")

  -- SGLang takes memory beside its share for a large prefill budget.
  abbrev sglang_overflows : HardwareDescriptor → Config W → Bool
  sglang_overflows hw c =
      str_eq c.backend "sglang" && (small_gpu hw && leb 8192 (get_or_default 0 c.prefill_budget))

  -- A larger batch; the engine requires that a budget covers it.
  abbrev pub grown : Config W → ℕ → Config W
  grown v b = record v {
    batch = b;
    prefill_budget = if budget_below v.prefill_budget b then none else v.prefill_budget;
  }

  -- The batch step that only the smaller cache admits.
  abbrev pub step_up : (Config W → Bool) → Config W → Config W → List ℕ → List (Config W)
  step_up fits c v [] = []
  step_up fits c v (b ∷ bs) =
      let vb = grown v b in
      if fits vb && not (fits (record vb { kv_dtype = c.kv_dtype })) then vb ∷ [] else []

  unfoldable pub kv_step : (Config W → Bool) → List ℕ → Config W → String → List (Config W)
  kv_step fits ladder c kd =
      let v = record c { kv_dtype = kd } in
      if str_eq kd c.kv_dtype
      then []
      else (if fits v then v ∷ [] else []) ++ step_up fits c v (keep_if (ltb c.batch) ladder)

  abbrev pub with_prefix : SearchOptions W → List (Config W) → List (Config W)
  with_prefix o cs =
      if o.prefix_cache
      then cs
      else map (λ (c : Config W). record c { prefix_cache = some false }) cs

  -- `[v for c in configs for v in stage(c)]`.
  unfoldable pub variants_all : Variants W → List (Config W) → Option (List (Config W))
  variants_all stage [] = some []
  variants_all stage (c ∷ cs) = elim (stage c) [
    | none ↦ none
    | some vs ↦ elim (variants_all stage cs) [ none ↦ none | some rest ↦ some (vs ++ rest) ]
  ]

  unfoldable pub expand : List (Variants W) → List (Config W) → Option (List (Config W))
  expand [] cs = some cs
  expand (stage ∷ stages) cs = elim (variants_all stage cs) [
    | none ↦ none
    | some vs ↦ expand stages (cs ++ vs)
  ]

module _ {W : Type 0} ⦃f : Float W⦄ where
  -- `estimate(…).feasible`, false when it raises.
  unfoldable pub fits_memory : HardwareDescriptor → PreparedModel → MemoryModel W → Config W → Bool
  fits_memory hw model mm c = elim (estimate hw model mm c none) [
    | none ↦ false
    | some e ↦ e.feasible
  ]

  abbrev estimate_fits : HardwareDescriptor → Config W → PreparedModel → Option (Backend W) → Bool
  estimate_fits hw c model none = false
  estimate_fits hw c model (some be) = fits_memory hw model (be.memory_model hw) c

  -- The first configuration of each key that is not `seen`, if it can run.
  unfoldable pub runnable : (Config W → Bool) → List String → List (Config W) → List (Config W)
  runnable fits seen [] = []
  runnable fits seen (c ∷ cs) = elim (not (any (str_eq (key c)) seen) && fits c) [
    | true ↦ c ∷ runnable fits (key c ∷ seen) cs
    | false ↦ runnable fits seen cs
  ]

  module _ (registry : List (String × Backend W)) (plan : PlanResult W) where
    unfoldable pub combination_fits : HardwareDescriptor → Config W → Bool
    combination_fits hw c =
        if sglang_overflows hw c then false else (elim (lookup c.backend plan.prepared) [
          | none ↦ false
          | some model ↦
              if budget_short c then false else estimate_fits hw c model (lookup c.backend registry)
        ])

    -- `kv_variants_fn`.
    unfoldable pub kv_variants : HardwareDescriptor → Variants W
    kv_variants hw c = elim (lookup c.backend registry) [
      | none ↦ none
      | some be ↦ elim (lookup c.backend plan.prepared) [
        | none ↦ some []
        | some model ↦ some (
            concat_map (kv_step (fits_memory hw model (be.memory_model hw)) be.batch_ladder c)
              (be.kv_dtypes hw))
      ]
    ]

    -- `lambda c: reg[c.backend].prefill_variants(c)`, and so for the prefix.
    unfoldable pub engine_variants : (Backend W → Config W → List (Config W)) → Variants W
    engine_variants of c = elim (lookup c.backend registry) [
      | none ↦ none
      | some be ↦ some (of be c)
    ]

    unfoldable pub spec_variants_of : Variants W
    spec_variants_of c = elim (lookup c.backend registry) [
      | none ↦ none
      | some be ↦ elim (lookup c.backend plan.prepared) [
        | none ↦ none
        | some model ↦ some (be.spec_variants c model)
      ]
    ]

    -- The stages beside the prefill stage, by name, for a workload whose prompts share a prefix or not.
    unfoldable pub variant_stages :
        SearchOptions W → HardwareDescriptor → Bool → List (String × Variants W)
    variant_stages o hw shared_prefix =
        when o.kv_quant ("kv", kv_variants hw)
        ++ (when (o.prefix_cache && shared_prefix)
              ("prefix", engine_variants (λ be. be.prefix_variants))
            ++ when o.speculative ("spec", spec_variants_of))

    abbrev pub space_stages : SearchOptions W → HardwareDescriptor → Bool → List (Variants W)
    space_stages o hw shared_prefix =
        when o.phase_tuning (engine_variants (λ be. be.prefill_variants))
        ++ map (λ s. s.1) (variant_stages o hw shared_prefix)

    unfoldable pub search_space :
        SearchOptions W → HardwareDescriptor → Bool → Option (List (Config W))
    search_space o hw shared_prefix =
        elim (expand (space_stages o hw shared_prefix) (with_prefix o (all_feasible plan))) [
          | none ↦ none
          | some cs ↦ some (runnable (combination_fits hw) [] cs)
        ]
