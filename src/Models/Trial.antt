-- ===== src/Models/Trial.antt =====
-- polyserve/models.py, what one trial measured. A concurrency level has the same fields as the trial
-- but no levels of its own, so `TrialMetrics` is a `LevelMetrics` with its levels.
use polyserve.Base.{
  ℕ, String, Bool, false, not, ◌&&◌, ◌||◌, Option, List, [], ◌∷◌, if◌then◌else◌, ◌==◌, ◌<>◌, show_ℕ,
  is_some,
}
use polyserve.Float.{Float, from_ℕ, at_most}
use polyserve.Models.Settings.{Config, DisaggSpec}

pub record MemoryEstimate : Type 0 where
  pub config_key : String
  pub weights : ℕ
  pub kv_cache : ℕ
  pub runtime_workspace : ℕ
  pub safety_margin : ℕ
  pub total : ℕ
  pub budget : ℕ
  pub feasible : Bool

pub record LevelMetrics (W : Type 0) : Type 0 where
  pub tok_s : W
  pub ttft_ms : Option W
  pub ttft_p95_ms : Option W
  pub tpot_ms : Option W
  pub peak_mem_mb : Option W
  pub gpu_util_pct : Option W
  pub power_w : Option W
  pub sm_clock_mhz : Option W
  pub joules_per_token : Option W
  pub duration_s : W
  pub requests : ℕ
  pub failed : ℕ
  pub output_tokens : ℕ
  pub concurrency : ℕ
  pub telemetry_source : String
  pub token_count_source : String
  pub prompt_tokens : ℕ
  pub errors : List String
  pub ttft_samples_ms : List W
  pub resampled : Bool

pub record TrialMetrics (W : Type 0) : Type 0 where
  pub whole : LevelMetrics W
  pub open whole use *
  pub by_concurrency : List (String × LevelMetrics W)

module _ {W : Type 0} ⦃f : Float W⦄ where
  -- FAILURE_TOLERANCE = 0.10.
  abbrev pub failure_tolerance : W
  failure_tolerance = f.decimal 10 2

  unfoldable pub level_ok : LevelMetrics W → Bool
  level_ok m =
      if m.requests == 0 || m.output_tokens == 0
      then false
      else at_most (from_ℕ m.failed) (f.mul failure_tolerance (from_ℕ m.requests))

  -- '12/48 requests failed: <first error>'
  unfoldable pub failure_summary : LevelMetrics W → String
  unfolding show_ℕ
  failure_summary m =
      let msg = show_ℕ m.failed <> "/" <> show_ℕ m.requests <> " requests failed" in
      elim m.errors [ [] ↦ msg | e ∷ rest ↦ msg <> ": " <> e ]

pub record TrialResult (W : Type 0) : Type 0 where
  pub config : Config W
  pub stage : String
  pub metrics : TrialMetrics W
  pub launched : Bool
  pub error : Option String
  pub disagg : Option (DisaggSpec W)
  pub replicas : ℕ

module _ {W : Type 0} ⦃f : Float W⦄ where
  unfoldable pub ok : TrialResult W → Bool
  unfolding level_ok
  ok r = r.launched && not (is_some r.error) && level_ok r.metrics.whole
