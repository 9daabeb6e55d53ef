-- ===== src/Stages/Tests.antt =====
-- A search over two configurations, with a variant stage, a power stage and a confirmation, and the
-- theorems applied to it.
use polyserve.Base.{
  All-of_members, false, ℕ, suc, ◌+◌, String, ◌≡◌, refl, true, not, none, some, Option, List, [],
  ◌∷◌, Memᴰ, All, subst, if◌then◌else◌, get_or_default, take, All-take, Bool, map,
}
use mathlib.Core.Option
use mathlib.Core.Option.{some-injective}
use polyserve.Float.{below}
use polyserve.Float.Decimals.{Decimal, decimal_float}
use polyserve.Models.{Config, flag, lookup, TrialResult, ok, base_key}
use polyserve.Stages.Delta.{delta, apply, same_value?}
use polyserve.Stages.Change.{Settles, apply-delta}
use polyserve.Stages.Extra.{or_else}
use polyserve.Models.Samples.{plain, quantized_cache, prompt_trial}
use polyserve.Objectives.Score.{balanced, default_constraints, levels, violation, score}
use polyserve.Objectives.Rank.{rank, best_level, before, joins, preferred}
use polyserve.Objectives.Pick.{pick}
use polyserve.Power.Settings.{PowerSetting, default_setting}
use polyserve.Search.{Env, Settings, Search, new_search, lower, too_low, eligible, over_budget}
use polyserve.Search.Retry.{ends_within}
use polyserve.Stages.{Strategy, Variants, pick_of, ◌>>=◌}
use polyserve.Stages.Groups.{group_of}
use polyserve.Stages.Triples.{IsSound, IsTimed, Holds, Ensures}
use polyserve.Stages.Given.{IsRunner, IsStrategy, Proposes}
use polyserve.Stages.Start.{AllSome}
use polyserve.Stages.Early.{IsPlanned}
use polyserve.Stages.Fresh.{Fresh}
use polyserve.Stages.Confirmed.{stage_confirm-Ensures}
use polyserve.Stages.Confirm.{
  stage_confirm, rounds, one_round, remeasure, fresh_trial, add_run, shortlist, shortlist_from,
  representatives,
}
use polyserve.Stages.Contenders.{ranking}
use polyserve.Stages.Tuning.{like-IsSound}
use polyserve.Stages.Outcome.{run_stages-finds}
use polyserve.Stages.Whole.{run_stages}

-- An engine that starts with at most 85% reserved.
abbrev starts : Config Decimal → Bool
starts c = not (
    below (decimal_float.decimal 85 2)
      (get_or_default (decimal_float.decimal 0 0) c.gpu_memory_utilization))

abbrev env : Env Decimal ℕ
env = record {
  now = λ x. (decimal_float.decimal x 0, suc x);
  run_trial = λ c stage x. (
    record prompt_trial {
      config = c;
      stage = stage;
      launched = starts c;
      error = if starts c then none else some "out of memory at start-up: 0.1 GiB free";
    },
    x + 100,
  );
  sweep = none;
}

abbrev opts : Settings Decimal
opts = record { budget_s = none; feasible_fn = none }

abbrev small_caches : Variants Decimal
small_caches c = some (record c { kv_dtype = "fp8" } ∷ [])

abbrev points : List PowerSetting
points = default_setting ∷ record { power_limit_w = some 200; sm_clock_mhz = none } ∷ []

abbrev pub strategy : Strategy Decimal ℕ
strategy = record {
  objective = balanced;
  constraints = default_constraints;
  top_quants = 2;
  max_memory_trials_per_quant = 3;
  predicted = λ c. none;
  prune_below = decimal_float.decimal 4 1;
  drop_backend_below = decimal_float.decimal 5 1;
  power_points = points;
  prefill_variants = some small_caches;
  variant_stages = ("kv", small_caches) ∷ [];
  combine = true;
  combine_band = decimal_float.decimal 5 2;
  max_combinations = 8;
  contender_band = decimal_float.decimal 1 1;
  quality_summary = none;
  refused = [];
  confirm_top = 2;
  confirm_band = decimal_float.decimal 1 1;
  confirm_rounds = 1;
  explore_space = plain ∷ quantized_cache ∷ [];
  explore_share = decimal_float.decimal 3 1;
  explore_min = 1;
  sample = λ pool k. take k pool;
  spec_first = true;
  spec_beam = 2;
}

abbrev planned : List (Config Decimal)
planned = plain ∷ quantized_cache ∷ []

planned-ends : All (λ c. ends_within 1 c.gpu_memory_utilization ≡ true) planned
unfolding lower too_low
planned-ends = (refl, (refl, tt))

env-IsTimed : (c : Config Decimal) (stage : String) (x : ℕ) → IsTimed (env.run_trial c stage x).0
unfolding levels
env-IsTimed c stage x = record { timed = λ e. (refl, (refl, tt)) }

env-IsRunner : IsRunner 1 planned env
env-IsRunner = record { given = λ c stage x. refl; timed = env-IsTimed; swept = λ g e. cc }

small_caches-Proposes : Proposes 1 planned small_caches
small_caches-Proposes c vs e sound =
    subst (All _) (some-injective _ _ e)
      (like-IsSound 1 planned c (record c { kv_dtype = "fp8" }) sound refl refl refl, tt)

strategy-IsStrategy : IsStrategy 1 planned strategy
strategy-IsStrategy = record {
  prefill = λ fn e. subst (Proposes 1 planned) (some-injective _ _ e) small_caches-Proposes;
  stages = (small_caches-Proposes, tt);
  space = planned-ends;
  draws = λ pool k. All-take _ k pool (All-of_members (λ c. Memᴰ c pool) pool (λ c m. m));
}

run_stages-finds_example :
    (winner : Option (TrialResult Decimal)) × (notes : List String) × (t : Search Decimal ℕ)
    × (run_stages strategy env opts 2 planned (new_search 0) ≡ some ((winner, notes), t))
    × AllSome (λ r. (ok r ≡ true) × Memᴰ r t.results × IsPlanned planned (group_of r.config)) winner
run_stages-finds_example =
    run_stages-finds env opts 1 planned env-IsRunner strategy strategy-IsStrategy 0 planned-ends

abbrev fitted : Config Decimal
fitted = record plain { gpu_memory_utilization = some (decimal_float.decimal 80 2) }

-- A search that has measured one configuration, which starts.
abbrev searched : Search Decimal ℕ
searched = record (new_search 0) { results = (env.run_trial fitted "quant" 0).0 ∷ [] }

fitted-IsSound : IsSound 1 planned fitted
unfolding lower too_low
fitted-IsSound = record { ends = refl; planned = (plain, Memᴰ.head refl, refl) }

searched-Holds : Holds 1 planned searched
searched-Holds = record {
  fine = ((fitted-IsSound, env-IsTimed fitted "quant" 0), tt);
  memo = λ k r e. cc;
}

stage_confirm-Ensures_example :
    Ensures 1 planned
      (stage_confirm strategy env opts 2)
      searched
      (λ o t. AllSome (All (Fresh 1 planned searched t)) o)
stage_confirm-Ensures_example =
    stage_confirm-Ensures env opts 1 planned env-IsRunner strategy searched searched-Holds

-- What evaluation of the stage unfolds.
confirm_program : Unit {0}
unfolding stage_confirm rounds one_round remeasure fresh_trial add_run shortlist shortlist_from
    representatives ranking eligible rank best_level before base_key ok levels violation score joins
    preferred over_budget pick_of pick ◌>>=◌
confirm_program = tt

-- The stage hands on one run, of the stage itself and not the one of the search.
handed_on :
    Option.map
      (λ p. Option.map (map (λ r. r.stage)) p.0)
      (stage_confirm strategy env opts 2 searched)
    ≡ some (some ("confirm" ∷ []))
unfolding confirm_program
handed_on = refl

abbrev variant : Config Decimal
variant = record quantized_cache { batch = 32; extra = ("enforce_eager", flag false) ∷ [] }

apply-delta_example :
    Settles (apply plain (delta plain variant)) variant
    × (same_value?
          (lookup "enforce_eager" (apply plain (delta plain variant)).extra)
          (or_else (lookup "enforce_eager" variant.extra) (lookup "enforce_eager" plain.extra))
        ≡ true)
apply-delta_example = apply-delta plain variant "enforce_eager" (tt, tt)
