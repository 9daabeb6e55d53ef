-- ===== src/Pipeline/Runs.antt =====
-- Why the variants of polyserve/pipeline.py raise nothing for engines that are known and prepared.
use polyserve.Base.{
  String, ◌≡◌, refl, sym, subst, inl, inr, Bool, true, false, ◌&&◌, Option, none, some, List, [],
  ◌∷◌, ◌++◌, All, All-append, All-map, Bool-cases, is_some,
}
use polyserve.Float.{Float}
use polyserve.Models.{Config, HardwareDescriptor, lookup}
use polyserve.Backends.{Backend}
use polyserve.Backends.Kept.{VariantsKeep}
use polyserve.Stages.{Variants}
use polyserve.Pipeline.{SearchOptions, PlanResult, all_feasible}
use polyserve.Pipeline.Variants.{
  kv_variants, engine_variants, spec_variants_of, variant_stages, space_stages, when, with_prefix,
  variants_all, expand,
}
use polyserve.Pipeline.Spaces.{IsLike, StaysLike, space_stages-StayLike}
use polyserve.Pipeline.Expand.{variants_all-All}

returns : {A : Type 0} (o : Option A) → is_some o ≡ true → (a : A) × (o ≡ some a)
returns none h = cc
returns (some a) h = (a, refl)

module _ {W : Type 0} (registry : List (String × Backend W)) (plan : PlanResult W) where
  -- Of an engine that is known and whose model is prepared.
  abbrev pub IsKnown : Config W → Type 0
  IsKnown c =
      (is_some (lookup c.backend registry) ≡ true)
      × (is_some (lookup c.backend plan.prepared) ≡ true)

  pub IsKnown-like : (c v : Config W) → IsKnown c → IsLike c v → IsKnown v
  IsKnown-like c v (a, b) k = (
    subst (λ name. is_some (lookup name registry) ≡ true) (sym k.engine) a,
    subst (λ name. is_some (lookup name plan.prepared) ≡ true) (sym k.engine) b,
  )

  -- A variant function that raises nothing for such a configuration.
  abbrev pub Runs : Variants W → Type 0
  Runs fn = (c : Config W) → IsKnown c → (vs : List (Config W)) × (fn c ≡ some vs)

  abbrev StageRuns : String × Variants W → Type 0
  StageRuns s = Runs s.1

  variants_all_returns :
      (stage : Variants W) (cs : List (Config W))
      → Runs stage
      → All IsKnown cs
      → (vs : List (Config W)) × (variants_all stage cs ≡ some vs)
  unfolding variants_all
  variants_all_returns stage [] run k = ([], refl)
  variants_all_returns stage (c ∷ cs) run k =
      let (vs, mine) = run c k.0 in
      let (rest, theirs) = variants_all_returns stage cs run k.1 in
      (vs ++ rest, rw (mine, theirs, variants_all) refl)

  expand_returns :
      (stages : List (Variants W)) (cs : List (Config W))
      → All Runs stages
      → All StaysLike stages
      → All IsKnown cs
      → (all : List (Config W)) × (expand stages cs ≡ some all)
  unfolding expand
  expand_returns [] cs run like k = (cs, refl)
  expand_returns (stage ∷ stages) cs run like k =
      let (vs, mine) = variants_all_returns stage cs run.0 k in
      let new = variants_all-All IsKnown IsKnown-like stage cs vs like.0 k mine in
      let (all, e) =
        expand_returns stages (cs ++ vs) run.1 like.1 (All-append IsKnown cs vs k new) in
      (all, rw (mine, expand) e)

  stage_of-Runs :
      (b : Bool) (name : String) (fn : Variants W) → Runs fn → All StageRuns (when b (name, fn))
  stage_of-Runs true name fn h = (h, tt)
  stage_of-Runs false name fn h = tt

module _ {W : Type 0} ⦃f : Float W⦄ (registry : List (String × Backend W)) (plan : PlanResult W)
    (keep : All VariantsKeep registry) (o : SearchOptions W) (hw : HardwareDescriptor)
    (shared_prefix : Bool) where
  engine_variants-Runs :
      (of : Backend W → Config W → List (Config W))
      → Runs registry plan (engine_variants registry plan of)
  unfolding engine_variants
  engine_variants-Runs of c k =
      let (be, found) = returns (lookup c.backend registry) k.0 in
      returns (engine_variants registry plan of c) (rw (found, engine_variants) refl)

  spec_variants_of-Runs : Runs registry plan (spec_variants_of registry plan)
  unfolding spec_variants_of
  spec_variants_of-Runs c k =
      let (be, found) = returns (lookup c.backend registry) k.0 in
      let (model, ready) = returns (lookup c.backend plan.prepared) k.1 in
      returns (spec_variants_of registry plan c) (rw (found, ready, spec_variants_of) refl)

  kv_variants-Runs : Runs registry plan (kv_variants registry plan hw)
  unfolding kv_variants
  kv_variants-Runs c k =
      let (be, found) = returns (lookup c.backend registry) k.0 in
      let (model, ready) = returns (lookup c.backend plan.prepared) k.1 in
      returns (kv_variants registry plan hw c) (rw (found, ready, kv_variants) refl)

  variant_stages-Run :
      All (StageRuns registry plan) (variant_stages registry plan o hw shared_prefix)
  unfolding variant_stages
  variant_stages-Run =
      All-append (StageRuns registry plan) _ _
        (stage_of-Runs registry plan o.kv_quant "kv" _ kv_variants-Runs)
        (All-append (StageRuns registry plan) _ _
          (stage_of-Runs registry plan (o.prefix_cache && shared_prefix) "prefix" _
            (engine_variants-Runs (λ be. be.prefix_variants)))
          (stage_of-Runs registry plan o.speculative "spec" _ spec_variants_of-Runs))

  prefill_stage-Runs :
      (b : Bool)
      → All
          (Runs registry plan)
          (when b (engine_variants registry plan (λ be. be.prefill_variants)))
  prefill_stage-Runs true = (engine_variants-Runs (λ be. be.prefill_variants), tt)
  prefill_stage-Runs false = tt

  space_stages-Run : All (Runs registry plan) (space_stages registry plan o hw shared_prefix)
  space_stages-Run =
      All-append (Runs registry plan) _ _ (prefill_stage-Runs o.phase_tuning)
        (All-map (StageRuns registry plan) (Runs registry plan) _ (λ s k. k) _ variant_stages-Run)

  start-AreKnown :
      All (IsKnown registry plan) (all_feasible plan)
      → All (IsKnown registry plan) (with_prefix o (all_feasible plan))
  start-AreKnown k = elim (Bool-cases o.prefix_cache) [
    | inl e ↦ rw e k
    | inr e ↦ rw e (
        All-map (IsKnown registry plan) (IsKnown registry plan)
          (λ (c : Config W). record c { prefix_cache = some false }) (λ c h. h) (all_feasible plan)
          k)
  ]

  -- The stages of the search space raise nothing for engines that are known and prepared.
  pub stages_return :
      All (IsKnown registry plan) (all_feasible plan)
      → (cs : List (Config W)) × (expand
            (space_stages registry plan o hw shared_prefix)
            (with_prefix o (all_feasible plan))
          ≡ some cs)
  stages_return k =
      expand_returns registry plan (space_stages registry plan o hw shared_prefix)
        (with_prefix o (all_feasible plan)) space_stages-Run
        (space_stages-StayLike registry plan keep o hw shared_prefix) (start-AreKnown k)
