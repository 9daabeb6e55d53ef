-- ===== src/Pipeline/Calibrate.antt =====
-- polyserve/pipeline.py: how `calibrate` sets up the search. `defaults` has what the search takes from
-- elsewhere: the objective, the constraints, the predictor, the random draws, the power settings, and
-- the defaults of its fields.
use polyserve.Base.{Bool, Option, none, some, List, [], if◌then◌else◌}
use polyserve.Float.{Float}
use polyserve.Models.{Config, HardwareDescriptor}
use polyserve.Search.{Settings}
use polyserve.Stages.{Strategy}
use polyserve.Backends.{Backend}
use polyserve.Base.{String, true, ◌&&◌}
use polyserve.Pipeline.{SearchOptions, PlanResult}
use polyserve.Pipeline.Variants.{combination_fits, engine_variants, variant_stages, search_space}

module _ {W : Type 0} ⦃f : Float W⦄ (registry : List (String × Backend W)) (plan : PlanResult W)
    (o : SearchOptions W) (hw : HardwareDescriptor) (shared_prefix : Bool) where
  abbrev pub settings_for : Settings W
  settings_for = record {
    budget_s = o.budget_s;
    feasible_fn = some (combination_fits registry plan hw);
  }

  -- `none` is the KeyError of a plan with an engine that is not known.
  unfoldable pub space_for : Option (List (Config W))
  space_for = if o.explore then search_space registry plan o hw shared_prefix else some []

  unfoldable pub strategy_for : {X : Type 0} → Strategy W X → Bool → List (Config W) → Strategy W X
  strategy_for defaults phase_tuning space = record defaults {
    combine = o.combine;
    confirm_top = if o.confirm then 3 else 0;
    spec_first = true;
    explore_space = space;
    variant_stages = variant_stages registry plan o hw shared_prefix;
    prefill_variants =
        if phase_tuning && o.phase_tuning
        then some (engine_variants registry plan (λ be. be.prefill_variants))
        else none;
  }
