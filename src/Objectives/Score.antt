-- ===== src/Objectives/Score.antt =====
-- polyserve/calibrate/objectives.py: the constraints, and one concurrency level's score and violation
-- under an objective. A float that may be absent or not finite is an `Option W` tested as in the code.
use polyserve.Base.{
  ℕ, Bool, true, false, not, ◌||◌, Option, none, some, List, [], ◌∷◌, if◌then◌else◌, leb, ◌==◌,
  keep_if, map,
}
use polyserve.Float.{Float, nought, from_ℕ, at_most, below, larger}
use polyserve.Models.{LevelMetrics, TrialResult, level_ok}

pub data Objective : Type 0 where
  throughput latency balanced efficiency : Objective

pub record Constraints (W : Type 0) : Type 0 where
  pub ttft_ceiling_ms : W
  pub ttft_percentile : ℕ
  pub tok_s_floor_frac : W
  pub tok_s_floor_abs : Option W
  pub noise_tolerance : W
  pub tpot_ceiling_ms : Option W
  pub power_max_loss : W

module _ {W : Type 0} ⦃f : Float W⦄ where
  abbrev pub default_constraints : Constraints W
  default_constraints = record {
    ttft_ceiling_ms = from_ℕ 500;
    ttft_percentile = 95;
    tok_s_floor_frac = f.decimal 5 1;
    tok_s_floor_abs = none;
    noise_tolerance = f.decimal 2 2;
    tpot_ceiling_ms = none;
    power_max_loss = f.decimal 2 2;
  }

  -- `x if (x is not None and math.isfinite(x)) else d`.
  abbrev pub finite_or : W → Option W → W
  finite_or d none = d
  finite_or d (some x) = if f.is_finite x then x else d

  -- `max(values, default=d)`: the first of the greatest.
  abbrev pub max_from : W → List W → W
  max_from best [] = best
  max_from best (x ∷ xs) = max_from (larger best x) xs

  abbrev pub max_or : W → List W → W
  max_or d [] = d
  max_or d (x ∷ xs) = max_from x xs

  unfoldable pub tok_s_floor : Constraints W → List (TrialResult W) → W
  tok_s_floor cons results = elim cons.tok_s_floor_abs [
    | some floor ↦ floor
    | none ↦ f.mul cons.tok_s_floor_frac (max_or nought (map (λ r. r.metrics.tok_s) results))
  ]

  unfoldable pub ttft : LevelMetrics W → W
  ttft m = finite_or f.infinity m.ttft_ms

  unfoldable pub ttft_for : LevelMetrics W → ℕ → W
  unfolding ttft
  ttft_for m percentile = if leb 95 percentile then finite_or (ttft m) m.ttft_p95_ms else ttft m

  -- The levels that are ok, else the whole trial as its only level.
  unfoldable pub levels : TrialResult W → List (LevelMetrics W)
  unfolding level_ok
  levels r = elim (keep_if level_ok (map (λ e. e.1) r.metrics.by_concurrency)) [
    | [] ↦ r.metrics.whole ∷ []
    | m ∷ ms ↦ m ∷ ms
  ]

  unfoldable pub e2e_latency : LevelMetrics W → W
  unfolding ttft
  e2e_latency m =
      let first = ttft m in
      let per_request =
        if m.requests == 0 then nought else f.div (from_ℕ m.output_tokens) (from_ℕ m.requests) in
      let tpot = finite_or nought m.tpot_ms in
      if f.is_finite first
      then f.add first (f.mul tpot (larger nought (f.sub per_request (from_ℕ 1))))
      else first

  -- Lower is better.
  unfoldable pub score : Objective → LevelMetrics W → W
  unfolding e2e_latency
  score throughput m = f.neg m.tok_s
  score latency m = e2e_latency m
  score balanced m = f.neg m.tok_s
  score efficiency m =
      let by_speed = f.sub (from_ℕ 1000000000) m.tok_s in finite_or by_speed m.joules_per_token

  -- How far outside the objective's own constraint; 0 when inside.
  unfoldable pub phase_violation :
      Objective → Constraints W → List (TrialResult W) → LevelMetrics W → W
  unfolding ttft_for tok_s_floor
  phase_violation throughput cons results m = nought
  phase_violation latency cons results m = larger nought (f.sub (tok_s_floor cons results) m.tok_s)
  phase_violation balanced cons results m =
      larger nought (f.sub (ttft_for m cons.ttft_percentile) cons.ttft_ceiling_ms)
  phase_violation efficiency cons results m =
      larger nought (f.sub (tok_s_floor cons results) m.tok_s)

  -- The decode-phase ceiling on top, when one is set.
  unfoldable pub violation : Objective → Constraints W → List (TrialResult W) → LevelMetrics W → W
  unfolding phase_violation
  violation o cons results m = elim cons.tpot_ceiling_ms [
    | none ↦ phase_violation o cons results m
    | some ceiling ↦
        f.add (phase_violation o cons results m)
          (larger nought (f.sub (finite_or nought m.tpot_ms) ceiling))
  ]

  -- The inner function of `enough_level`.
  unfoldable pub enough_at : Objective → Constraints W → LevelMetrics W → Bool
  unfolding phase_violation level_ok
  enough_at o cons m =
      if not (level_ok m) || below nought (phase_violation o cons [] m)
      then false
      else elim cons.tpot_ceiling_ms [
        | none ↦ true
        | some ceiling ↦ at_most (finite_or nought m.tpot_ms) ceiling
      ]

  -- `none`: every level has to be measured.
  unfoldable pub enough_level : Objective → Constraints W → Option (LevelMetrics W → Bool)
  unfolding enough_at
  enough_level throughput cons = some (enough_at throughput cons)
  enough_level balanced cons = some (enough_at balanced cons)
  enough_level _ cons = none
