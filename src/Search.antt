-- ===== src/Search.antt =====
-- polyserve/calibrate/search.py: the trials of a search, `StagedSearch._run`. The clock and the runner
-- act on a world `X`: reading the time and running a trial may change it. The progress callback and the
-- log do not change the search.
pub mod Keys
pub mod Memo
pub mod Again
pub mod Ran
pub mod Retry
pub mod Winner
mod Tests
use text.Mathlib.Text.{starts_with}
use polyserve.Base.{
  ℕ, zero, suc, String, Bool, true, false, not, ◌&&◌, ◌||◌, Option, none, some, List, [], ◌∷◌, ◌++◌,
  map, if◌then◌else◌, is_some, is_text, any, str_eq, ◌==◌, ◌<>◌, keep_if, length, get_or_default,
}
use polyserve.Float.{Float, nought, from_ℕ, below}
use polyserve.Models.{Config, LevelMetrics, TrialMetrics, TrialResult, key, lookup}
use polyserve.Objectives.Score.{Objective, Constraints}
use polyserve.Objectives.Pick.{pick}
use polyserve.Power.Settings.{PowerSetting}

-- The clock, `runner.run`, and `runner.sweep`, which not every runner has.
pub record Env (W X : Type 0) : Type 0 where
  pub now : X → W × X
  pub run_trial : Config W → String → X → TrialResult W × X
  pub sweep : Option (Config W → List PowerSetting → String → X → List (TrialResult W) × X)

-- The fields of `StagedSearch` that `_run` reads, and those that it changes.
pub record Settings (W : Type 0) : Type 0 where
  pub budget_s : Option W
  pub feasible_fn : Option (Config W → Bool)

pub record Search (W X : Type 0) : Type 0 where
  pub results : List (TrialResult W)
  pub notes : List String
  pub done : List (String × TrialResult W)
  pub started : Option W
  pub trial_seconds : List W
  pub skipped : List String
  -- (dimension, leader, variant)
  pub variant_log : List (String × (Config W × Config W))
  pub noted_contenders : List String
  pub world : X

abbrev pub new_search : {W X : Type 0} → X → Search W X
new_search x = record {
  results = [];
  notes = [];
  done = [];
  started = none;
  trial_seconds = [];
  skipped = [];
  variant_log = [];
  noted_contenders = [];
  world = x;
}

module _ {W : Type 0} ⦃f : Float W⦄ where
  abbrev no_metrics : TrialMetrics W
  no_metrics = record {
    whole = record {
      tok_s = nought;
      ttft_ms = none;
      ttft_p95_ms = none;
      tpot_ms = none;
      peak_mem_mb = none;
      gpu_util_pct = none;
      power_w = none;
      sm_clock_mhz = none;
      joules_per_token = none;
      duration_s = nought;
      requests = 0;
      failed = 0;
      output_tokens = 0;
      concurrency = 1;
      telemetry_source = "none";
      token_count_source = "none";
      prompt_tokens = 0;
      errors = [];
      ttft_samples_ms = [];
      resampled = false;
    };
    by_concurrency = [];
  }

  -- What `_run` returns in place of a trial that the budget no longer allows.
  abbrev pub not_run : Config W → String → TrialResult W
  not_run cfg stage = record {
    config = cfg;
    stage = stage;
    metrics = no_metrics;
    launched = false;
    error = some "skipped: calibration budget reached";
    disagg = none;
    replicas = 1;
  }

  -- `round(gmu - RETRY_GMU_STEP, 2)`, and whether it is below the floor: `MIN_RETRY_GMU - 1e-9`.
  unfoldable pub lower : W → W
  lower gmu = f.round2 (f.sub gmu (f.decimal 5 2))

  unfoldable pub too_low : W → Bool
  too_low gmu = below gmu (f.sub (f.decimal 85 2) (f.decimal 1 9))

  abbrev pub ran_out : TrialResult W → Bool
  ran_out r = not r.launched && starts_with (get_or_default "" r.error) "out of memory at start-up"

  abbrev pub allowed : Option (Config W → Bool) → Config W → Bool
  allowed none cfg = true
  allowed (some test) cfg = test cfg

  abbrev pub with_gmu : W → Config W → Config W
  with_gmu gmu cfg = record cfg { gpu_memory_utilization = some gmu }

  abbrev pub typical : List W → W
  typical xs = f.div (f.sum xs) (from_ℕ (length xs))

  abbrev pub recorded : {X : Type 0} → TrialResult W → Search W X → Search W X
  recorded res s = record s { results = s.results ++ res ∷ [] }

  unfoldable pub retry_note : Config W → Config W → String
  retry_note cfg retry =
      key cfg
      <> " ran out of memory at start-up; retried at gpu_memory_utilization "
      <> f.fixed 2 (get_or_default nought retry.gpu_memory_utilization)

  -- The failed launch stays on record, with a note of the retry.
  abbrev pub with_retry :
      {X : Type 0} → Config W → Config W → TrialResult W → Search W X → Search W X
  with_retry cfg retry res s =
      recorded res (record s { notes = s.notes ++ retry_note cfg retry ∷ [] })

  abbrev pub with_skip : {X : Type 0} → Config W → String → Search W X → Search W X
  with_skip cfg stage s = record s { skipped = s.skipped ++ (stage <> " " <> key cfg) ∷ [] }

  module _ {X : Type 0} (env : Env W X) (opts : Settings W) where
    -- The configuration with `gmu` reserved, unless it was measured or cannot run.
    unfoldable pub unless_done : Config W → Search W X → Option (Config W)
    unless_done retry s =
        if is_some (lookup (key retry) s.done) || not (allowed opts.feasible_fn retry)
        then none
        else some retry

    abbrev pub retry_from : Option W → Config W → TrialResult W → Search W X → Option (Config W)
    retry_from none cfg res s = none
    retry_from (some gmu) cfg res s =
        if not (ran_out res) || too_low (lower gmu)
        then none
        else unless_done (with_gmu (lower gmu) cfg) s

    unfoldable pub headroom_retry : Config W → TrialResult W → Search W X → Option (Config W)
    headroom_retry cfg res s = retry_from cfg.gpu_memory_utilization cfg res s

    -- `if self._started is None: self._started = self.clock()`.
    abbrev begin : Search W X → W × Search W X
    begin s = elim s.started [
      | some t ↦ (t, s)
      | none ↦ (
        (env.now s.world).0,
        record s { started = some (env.now s.world).0; world = (env.now s.world).1 },
      )
    ]

    -- Whether a trial started now would end past `budget` seconds.
    abbrev past : W → Search W X → Bool × Search W X
    past budget s =
        let (start, t) = begin s in
        (
          below (f.add start budget) (f.add (env.now t.world).0 (typical s.trial_seconds)),
          record t { world = (env.now t.world).1 },
        )

    unfoldable pub over_budget : Search W X → Bool × Search W X
    over_budget s = elim opts.budget_s [
      | none ↦ (false, s)
      | some budget ↦ elim s.trial_seconds [ [] ↦ (false, s) | t ∷ ts ↦ past budget s ]
    ]

    -- The runner's trial, timed and remembered under its key.
    unfoldable pub measure : Config W → String → Search W X → TrialResult W × Search W X
    measure cfg stage s =
        let (t0, w0) = env.now s.world in
        let (res, w1) = env.run_trial cfg stage w0 in
        let (t1, w2) = env.now w1 in
        (
          res,
          record s {
            started = some (get_or_default t0 s.started);
            trial_seconds = s.trial_seconds ++ f.sub t1 t0 ∷ [];
            done = s.done ++ (key cfg, res) ∷ [];
            world = w2;
          },
        )

    -- `_run`. The fuel bounds the retries; `none` is fuel that ran out.
    unfoldable pub run :
        (fuel : ℕ) → Config W → String → Search W X → Option (TrialResult W × Search W X)
    run zero cfg stage s = none
    run (suc fuel) cfg stage s = elim (lookup (key cfg) s.done) [
      | some res ↦ some (res, s)
      | none ↦
          let (over, s1) = over_budget s in
          elim over [
            | true ↦ some (not_run cfg stage, with_skip cfg stage s1)
            | false ↦
                let (res, s2) = measure cfg stage s1 in
                elim (headroom_retry cfg res s2) [
                  | none ↦ some (res, recorded res s2)
                  | some retry ↦ run fuel retry stage (with_retry cfg retry res s2)
                ]
          ]
    ]

-- `(r.config.backend, r.config.quant) in self.refused`.
abbrev pub is_refused : {W : Type 0} → List (String × String) → TrialResult W → Bool
is_refused refused r = any (λ p. str_eq p.0 r.config.backend && str_eq p.1 r.config.quant) refused

unfoldable pub eligible :
    {W : Type 0} → List (String × String) → List (TrialResult W) → List (TrialResult W)
eligible [] results = results
eligible (p ∷ refused) results = keep_if (λ r. not (is_refused (p ∷ refused) r)) results

-- `_best_of`; `none` is the TypeError of `pick`.
unfoldable pub best_of :
    {W : Type 0} ⦃f : Float W⦄
    → List (String × String)
    → List (TrialResult W)
    → Objective
    → Constraints W
    → Option (Option (TrialResult W))
best_of refused results o cons = elim (pick (eligible refused results) o cons) [
  | none ↦ none
  | some (winner, notes) ↦ some winner
]
