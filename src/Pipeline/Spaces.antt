-- ===== src/Pipeline/Spaces.antt =====
-- About the variants that polyserve/pipeline.py gives to the search, and about `search_space`.
use polyserve.Base.{
  ℕ, String, ◌≡◌, refl, subst, inl, inr, Bool, true, false, ◌&&◌, some, List, [], ◌∷◌, All,
  All-append, All-imp, All-map, All-concat_map, All-of_members, Bool-cases, Option-cases,
  if◌then◌else◌, keep_if, ltb, str_eq,
}
use mathlib.Core.Option.{some-injective}
use text.Mathlib.TextEquality.{eq_iff}
use polyserve.Float.{Float}
use polyserve.Models.{Config, HardwareDescriptor, lookup}
use polyserve.Backends.{Backend}
use polyserve.Backends.Kept.{Keeps, VariantsKeep}
use polyserve.Stages.{Variants}
use polyserve.Pipeline.{SearchOptions, PlanResult}
use polyserve.Pipeline.Variants.{
  fits_memory, kv_step, kv_variants, engine_variants, spec_variants_of, variant_stages,
  space_stages, grown, when, step_up,
}

-- What is found in a table whose entries all have a property.
pub lookup-All {ℓ κ} :
    {V : Type ℓ} (P : String × V → Type κ) (k : String) (m : List (String × V)) {v : V}
    → All P m
    → lookup k m ≡ some v
    → P (k, v)
lookup-All P k [] h e = cc
lookup-All P k ((j, w) ∷ m) h e = elim (Bool-cases (str_eq j k)) [
  | inl same ↦ subst P (λ t. ((eq_iff j k).0 same t, some-injective _ _ (rw same at e) t)) h.0
  | inr other ↦ lookup-All P k m h.1 (rw other at e)
]

-- The same engine and precision, and the same share of the card.
pub record IsLike {W : Type 0} (c v : Config W) : Type 0 where
  pub engine : v.backend ≡ c.backend
  pub precision : v.quant ≡ c.quant
  pub share : v.gpu_memory_utilization ≡ c.gpu_memory_utilization

Keeps-IsLike : {W : Type 0} (c v : Config W) → Keeps c v → IsLike c v
Keeps-IsLike c v k = record { engine = k.engine; precision = k.precision; share = k.share }

-- A variant function proposes only configurations like the one it is given.
abbrev pub StaysLike : {W : Type 0} → Variants W → Type 0
StaysLike {W} fn = (c : Config W) (vs : List (Config W)) → fn c ≡ some vs → All (IsLike c) vs

abbrev pub StageStays : {W : Type 0} → String × Variants W → Type 0
StageStays s = StaysLike s.1

module _ {W : Type 0} where
  if_All :
      (P : Config W → Type 0) (b : Bool) (c : Config W) → P c → All P (if b then c ∷ [] else [])
  if_All P true c p = (p, tt)
  if_All P false c p = tt

  step_up-IsLike :
      (fits : Config W → Bool) (c v : Config W) (bs : List ℕ)
      → IsLike c v
      → All (IsLike c) (step_up fits c v bs)
  step_up-IsLike fits c v [] k = tt
  step_up-IsLike fits c v (b ∷ bs) k =
      if_All (IsLike c) _ (grown v b)
        (record { engine = k.engine; precision = k.precision; share = k.share })

  kv_step-IsLike :
      (fits : Config W → Bool) (ladder : List ℕ) (c : Config W) (kd : String)
      → All (IsLike c) (kv_step fits ladder c kd)
  unfolding kv_step
  kv_step-IsLike fits ladder c kd = elim (Bool-cases (str_eq kd c.kv_dtype)) [
    | inl same ↦ rw same tt
    | inr new ↦ rw new (
        All-append (IsLike c) _ _
          (if_All (IsLike c) (fits (record c { kv_dtype = kd })) (record c { kv_dtype = kd })
            (record { engine = refl; precision = refl; share = refl }))
          (step_up-IsLike fits c (record c { kv_dtype = kd }) (keep_if (ltb c.batch) ladder)
            (record { engine = refl; precision = refl; share = refl })))
  ]

module _ {W : Type 0} ⦃f : Float W⦄ (registry : List (String × Backend W)) (plan : PlanResult W)
    (keep : All VariantsKeep registry) where
  kv_variants-StaysLike : (hw : HardwareDescriptor) → StaysLike (kv_variants registry plan hw)
  unfolding kv_variants
  kv_variants-StaysLike hw c vs e = elim (Option-cases (lookup c.backend registry)) [
    | inl missing ↦ cc (rw (missing, kv_variants) at e)
    | inr (be, found) ↦ elim (Option-cases (lookup c.backend plan.prepared)) [
      | inl missing ↦
          subst (All (IsLike c)) (some-injective _ _ (rw (found, missing, kv_variants) at e)) tt
      | inr (model, ready) ↦
          subst (All (IsLike c)) (some-injective _ _ (rw (found, ready, kv_variants) at e)) (
            All-concat_map (IsLike c) _ _ (
              All-of_members _ _ (λ kd m.
                kv_step-IsLike (fits_memory hw model (be.memory_model hw)) be.batch_ladder c kd)))
    ]
  ]

  engine_variants-StaysLike :
      (of : Backend W → Config W → List (Config W))
      → ((be : Backend W) (c : Config W) → VariantsKeep ("", be) → All (Keeps c) (of be c))
      → StaysLike (engine_variants registry plan of)
  unfolding engine_variants
  engine_variants-StaysLike of kept c vs e = elim (Option-cases (lookup c.backend registry)) [
    | inl missing ↦ cc (rw (missing, engine_variants) at e)
    | inr (be, found) ↦
        subst (All (IsLike c)) (some-injective _ _ (rw (found, engine_variants) at e)) (
          All-imp (Keeps c) (IsLike c) (Keeps-IsLike c) (of be c)
            (kept be c (lookup-All VariantsKeep c.backend registry keep found)))
  ]

  spec_variants_of-StaysLike : StaysLike (spec_variants_of registry plan)
  unfolding spec_variants_of
  spec_variants_of-StaysLike c vs e = elim (Option-cases (lookup c.backend registry)) [
    | inl missing ↦ cc (rw (missing, spec_variants_of) at e)
    | inr (be, found) ↦ elim (Option-cases (lookup c.backend plan.prepared)) [
      | inl missing ↦ cc (rw (found, missing, spec_variants_of) at e)
      | inr (model, ready) ↦
          subst (All (IsLike c)) (some-injective _ _ (rw (found, ready, spec_variants_of) at e)) (
            All-imp (Keeps c) (IsLike c) (Keeps-IsLike c) (be.spec_variants c model)
              (((lookup-All VariantsKeep c.backend registry keep found) c).2 model))
    ]
  ]

  stage_of-StaysLike :
      (b : Bool) (name : String) (fn : Variants W)
      → StaysLike fn
      → All StageStays (when b (name, fn))
  stage_of-StaysLike true name fn h = (h, tt)
  stage_of-StaysLike false name fn h = tt

  pub prefill-StaysLike : StaysLike (engine_variants registry plan (λ be. be.prefill_variants))
  prefill-StaysLike = engine_variants-StaysLike (λ be. be.prefill_variants) (λ be c k. (k c).0)

  module _ (o : SearchOptions W) (hw : HardwareDescriptor) (shared_prefix : Bool) where
    pub variant_stages-StayLike : All StageStays (variant_stages registry plan o hw shared_prefix)
    unfolding variant_stages
    variant_stages-StayLike =
        All-append StageStays _ _ (stage_of-StaysLike o.kv_quant "kv" _ (kv_variants-StaysLike hw))
          (All-append StageStays _ _
            (stage_of-StaysLike (o.prefix_cache && shared_prefix) "prefix" _
              (engine_variants-StaysLike (λ be. be.prefix_variants) (λ be c k. (k c).1)))
            (stage_of-StaysLike o.speculative "spec" _ spec_variants_of-StaysLike))

    prefill_stage-StaysLike :
        (b : Bool)
        → All StaysLike (when b (engine_variants registry plan (λ be. be.prefill_variants)))
    prefill_stage-StaysLike true = (prefill-StaysLike, tt)
    prefill_stage-StaysLike false = tt

    pub space_stages-StayLike : All StaysLike (space_stages registry plan o hw shared_prefix)
    space_stages-StayLike =
        All-append StaysLike _ _ (prefill_stage-StaysLike o.phase_tuning)
          (All-map StageStays StaysLike _ (λ s k. k) _ variant_stages-StayLike)
