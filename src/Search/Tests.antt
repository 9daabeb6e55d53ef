-- ===== src/Search/Tests.antt =====
-- A search whose engine needs two retries to start, and the theorems applied to it.
use polyserve.Base.{
  ℕ, suc, ◌+◌, String, ◌≡◌, refl, true, false, none, some, List, [], ◌∷◌, show_ℕ, join,
  if◌then◌else◌, get_or_default,
}
use polyserve.Float.{below}
use polyserve.Float.Decimals.{Decimal, decimal_float}
use polyserve.Models.{TrialResult, ok, key, level_ok, base_key}
use polyserve.Models.Samples.{plain, prompt_trial, failed_trial, trials}
use polyserve.Objectives.Score.{
  balanced, default_constraints, levels, violation, score, Constraints,
}
use polyserve.Objectives.Rank.{rank, before, best_level, joins, preferred}
use polyserve.Objectives.Pick.{pick}
use polyserve.Search.{
  Env, Settings, Search, new_search, headroom_retry, unless_done, over_budget, measure, run, lower,
  too_low, retry_note, best_of, eligible,
}
use polyserve.Search.Memo.{IsConsistent, run-IsConsistent}
use polyserve.Search.Again.{run-again}
use polyserve.Search.Retry.{ends_within}

-- A clock that counts its readings, and an engine that starts with at most 85% reserved.
abbrev env : Env Decimal ℕ
env = record {
  now = λ x. (decimal_float.decimal x 0, suc x);
  run_trial = λ c stage x. (
    if below (decimal_float.decimal 85 2)
          (get_or_default (decimal_float.decimal 0 0) c.gpu_memory_utilization)
        then record prompt_trial {
          config = c;
          stage = stage;
          launched = false;
          error = some "out of memory at start-up: 0.1 GiB free";
        }
        else record prompt_trial { config = c; stage = stage },
    x + 100,
  );
  sweep = none;
}

abbrev opts : Settings Decimal
opts = record { budget_s = some (decimal_float.decimal 600 0); feasible_fn = none }

abbrev fallback : TrialResult Decimal × Search Decimal ℕ
fallback = (failed_trial, new_search 0)

program : Unit {0}
unfolding run over_budget measure headroom_retry unless_done lower too_low retry_note key show_ℕ
    join
program = tt

abbrev outcome : TrialResult Decimal × Search Decimal ℕ
outcome = get_or_default fallback (run env opts 3 plain "memory" (new_search 0))

run-plain : run env opts 3 plain "memory" (new_search 0) ≡ some outcome
unfolding program
run-plain = refl

run-IsConsistent_example : IsConsistent env opts outcome.1
run-IsConsistent_example =
    run-IsConsistent env opts 3 plain "memory" (new_search 0) outcome.1 outcome.0 run-plain
      (record { on_record = refl; distinct = tt })

plain_ends : ends_within 1 plain.gpu_memory_utilization ≡ true
unfolding lower too_low
plain_ends = refl

under : (over_budget env opts (new_search 0)).0 ≡ false
unfolding over_budget
under = refl

run-again_example :
    (v : TrialResult Decimal) × ((more : ℕ) (later : String)
      → run env opts (suc more) plain later outcome.1 ≡ some (v, outcome.1))
run-again_example =
    run-again env opts 2 plain "memory" (new_search 0) outcome.1 outcome.0 under run-plain

abbrev cons : Constraints Decimal
cons = default_constraints

abbrev refused : List (String × String)
refused = ("sglang", "bf16") ∷ []

best : best_of refused trials balanced cons ≡ some (some prompt_trial)
unfolding best_of eligible pick rank best_level before base_key ok levels violation score joins
    preferred key
best = refl

outcome-ok : ok outcome.0 ≡ true
unfolding program ok level_ok
outcome-ok = refl
