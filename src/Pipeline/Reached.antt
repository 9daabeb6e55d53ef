-- ===== src/Pipeline/Reached.antt =====
-- What `search_space` of polyserve/pipeline.py holds.
use polyserve.Base.{
  String, ◌≡◌, refl, ◌∙◌, ◌⊎◌, inl, inr, Bool, true, false, some, List, [], All, All-imp, All-map,
  All-of_members, Memᴰ, Bool-cases,
}
use polyserve.Float.{Float}
use polyserve.Models.{Config, HardwareDescriptor}
use polyserve.Backends.{Backend}
use polyserve.Backends.Kept.{VariantsKeep}
use polyserve.Pipeline.{SearchOptions, PlanResult, all_feasible}
use polyserve.Pipeline.Variants.{
  combination_fits, space_stages, with_prefix, runnable, search_space,
}
use polyserve.Pipeline.Distinct.{
  AreDistinct, IsKept, runnable-All, runnable-fits, runnable-AreDistinct, runnable_complete,
}
use polyserve.Pipeline.Expand.{expand-All, expand-mem}
use polyserve.Pipeline.Runs.{IsKnown, stages_return}
use polyserve.Pipeline.Spaces.{IsLike, space_stages-StayLike}

module _ {W : Type 0} ⦃f : Float W⦄ (registry : List (String × Backend W)) (plan : PlanResult W)
    (keep : All VariantsKeep registry) (o : SearchOptions W) (hw : HardwareDescriptor)
    (shared_prefix : Bool) where
  -- Of the engine and precision of a configuration of the plan, with the same share of the card.
  abbrev pub IsReached : Config W → Type 0
  IsReached c = (d : Config W) × Memᴰ d (all_feasible plan) × IsLike d c

  reached-closed : (c v : Config W) → IsReached c → IsLike c v → IsReached v
  reached-closed c v (d, m, l) k = (
    d,
    m,
    record {
      engine = k.engine ∙ l.engine;
      precision = k.precision ∙ l.precision;
      share = k.share ∙ l.share;
    },
  )

  planned : All IsReached (all_feasible plan)
  planned =
      All-of_members IsReached (all_feasible plan)
        (λ c m. (c, m, record { engine = refl; precision = refl; share = refl }))

  start-IsReached : All IsReached (with_prefix o (all_feasible plan))
  start-IsReached = elim (Bool-cases o.prefix_cache) [
    | inl e ↦ rw e planned
    | inr e ↦ rw e (
        All-map IsReached IsReached (λ (c : Config W). record c { prefix_cache = some false })
          (λ c r. reached-closed c _ r (record { engine = refl; precision = refl; share = refl }))
          (all_feasible plan) planned)
  ]

  kept :
      (cs : List (Config W)) (c : Config W)
      → Memᴰ c cs
      → (combination_fits registry plan hw c ≡ false)
        ⊎ IsKept (runnable (combination_fits registry plan hw) [] cs) c
  kept cs c m = elim (Bool-cases (combination_fits registry plan hw c)) [
    | inr out ↦ inl out
    | inl run ↦ elim (runnable_complete (combination_fits registry plan hw) [] cs c run m) [
      | inl old ↦ cc
      | inr there ↦ inr there
    ]
  ]

  -- If the engines of the planned configurations are known and have prepared models, `search_space`
  -- raises nothing. Every configuration that it returns can run, no two have one key, each is of the
  -- engine and precision of a planned configuration and asks for its share of the card, and every
  -- planned configuration that can run is there under its key.
  pub search_space-IsReached :
      All (IsKnown registry plan) (all_feasible plan)
      → (space : List (Config W)) × (search_space registry plan o hw shared_prefix ≡ some space)
        × All (λ c. combination_fits registry plan hw c ≡ true) space
        × AreDistinct space
        × All IsReached space
        × All
            (λ c. (combination_fits registry plan hw c ≡ false) ⊎ IsKept space c)
            (with_prefix o (all_feasible plan))
  unfolding search_space
  search_space-IsReached known =
      let stages = space_stages registry plan o hw shared_prefix in
      let start = with_prefix o (all_feasible plan) in
      let fits = combination_fits registry plan hw in
      let (cs, expanded) = stages_return registry plan keep o hw shared_prefix known in
      (
        runnable fits [] cs,
        rw (expanded, search_space) refl,
        All-imp _ _ (λ c h. h.0) _ (runnable-fits fits [] cs),
        runnable-AreDistinct fits [] cs,
        runnable-All fits IsReached [] cs (
            expand-All IsReached reached-closed stages start cs
              (space_stages-StayLike registry plan keep o hw shared_prefix) start-IsReached
              expanded),
        All-of_members _ start (λ c m. kept cs c (expand-mem stages start cs expanded m)),
      )
