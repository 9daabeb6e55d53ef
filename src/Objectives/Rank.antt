-- ===== src/Objectives/Rank.antt =====
-- polyserve/calibrate/objectives.py: each trial scored at its best level, the trials in order, and
-- ties within the noise broken. A concurrency level without the objective's floor is measured as is.
use polyserve.Base.{
  ℕ, ◌+◌, String, Bool, true, false, not, ◌&&◌, ◌||◌, none, some, List, [], ◌∷◌, ◌++◌,
  if◌then◌else◌, ltb, ◌==◌, keep_if, map, any, is_some, str_eq, get_or_default, ◌<>◌, show_ℕ,
}
use polyserve.Base.Sort.{sort}
use polyserve.Float.{Float, nought, from_ℕ, at_most, below, same, larger, magnitude}
use polyserve.Models.{Config, LevelMetrics, TrialResult, ok, key, base_key}
use polyserve.Objectives.Score.{Objective, Constraints, finite_or, levels, score, violation}

pub record Ranked (W : Type 0) : Type 0 where
  pub result : TrialResult W
  pub metrics : LevelMetrics W
  pub score : W
  pub feasible : Bool
  pub violation : W

abbrev pub eq_Bool : Bool → Bool → Bool
eq_Bool true b = b
eq_Bool false b = not b

abbrev pub count_if : Bool → ℕ
count_if b = if b then 1 else 0

-- `{"cache_reuse", "kv_unified"} & set(extra)` is not empty.
abbrev pub has_cache_extra {ℓ} : {V : Type ℓ} → List (String × V) → Bool
has_cache_extra extra = any (λ e. str_eq e.0 "cache_reuse" || str_eq e.0 "kv_unified") extra

abbrev pub at_least_two {ℓ} : {A : Type ℓ} → List A → Bool
at_least_two [] = false
at_least_two (x ∷ []) = false
at_least_two (x ∷ y ∷ rest) = true

module _ {W : Type 0} ⦃f : Float W⦄ where
  -- The violation that the sort key holds.
  abbrev pub key_violation : Ranked W → W
  key_violation x = if x.feasible then nought else x.violation

  -- `_sort_key(x) < _sort_key(y)`: tuples compare at the first place where they differ.
  unfoldable pub before : Ranked W → Ranked W → Bool
  before x y =
      if eq_Bool x.feasible y.feasible
      then (if same (key_violation x) (key_violation y)
          then below x.score y.score
          else below (key_violation x) (key_violation y))
      else x.feasible

  -- The third part of `_capability`; the first two are the context and the batch.
  unfoldable pub memory_setting : Config W → W
  memory_setting c = elim c.gpu_memory_utilization [
    | some g ↦ g
    | none ↦ from_ℕ (get_or_default 0 c.n_gpu_layers)
  ]

  unfoldable pub strategies : Config W → ℕ
  strategies c =
      count_if (not (str_eq c.kv_dtype "auto"))
      + count_if (is_some c.spec_decode)
      + count_if (is_some c.prefill_budget)
      + count_if (has_cache_extra c.extra)

  unfoldable pub joules : Ranked W → W
  joules x = finite_or f.infinity x.metrics.joules_per_token

  unfoldable pub variant_key : TrialResult W → String
  unfolding base_key show_ℕ
  variant_key r =
      base_key r.config
      <> (elim r.disagg [ none ↦ "" | some d ↦ "|pd:" <> key d.prefill ])
      <> (if ltb 1 r.replicas then "|x" <> show_ℕ r.replicas else "")

  -- Fewer strategies, then the larger context, batch and memory setting, then less energy.
  unfoldable pub preferred : Ranked W → Ranked W → Bool
  unfolding memory_setting strategies joules
  preferred x y =
      let a = x.result.config in
      let b = y.result.config in
      if strategies a == strategies b
      then (if a.ctx == b.ctx
          then (if a.batch == b.batch
              then (if same (f.neg (memory_setting a)) (f.neg (memory_setting b))
                  then below (joules x) (joules y)
                  else below (f.neg (memory_setting a)) (f.neg (memory_setting b)))
              else ltb b.batch a.batch)
          else ltb b.ctx a.ctx)
      else ltb (strategies a) (strategies b)

  abbrev pub span : Constraints W → Ranked W → W
  span cons lead = f.mul (magnitude lead.score) (larger cons.noise_tolerance nought)

  abbrev pub power_span : Constraints W → Ranked W → W
  power_span cons lead =
      f.mul (magnitude lead.score) (larger (larger cons.power_max_loss cons.noise_tolerance) nought)

  -- Whether `x` joins the leader's cluster.
  unfoldable pub joins : Constraints W → Ranked W → Ranked W → Bool
  unfolding variant_key
  joins cons lead x =
      let gap = magnitude (f.sub x.score lead.score) in
      x.feasible
      && (at_most gap (span cons lead)
          || str_eq (variant_key x.result) (variant_key lead.result)
            && at_most gap (power_span cons lead))

  -- The cluster, reordered, before the rest. `x not in cluster` compares by value, and `joins` is a
  -- function of the value, so the rest are those that do not join.
  abbrev pub cluster_first : Constraints W → Ranked W → List (Ranked W) → List (Ranked W)
  cluster_first cons lead ranked =
      sort preferred (keep_if (joins cons lead) ranked)
      ++ keep_if (λ x. not (joins cons lead x)) ranked

  unfoldable pub break_ties : Constraints W → List (Ranked W) → List (Ranked W)
  break_ties cons [] = []
  break_ties cons (lead ∷ rest) =
      if lead.feasible && at_least_two (keep_if (joins cons lead) (lead ∷ rest))
      then cluster_first cons lead (lead ∷ rest)
      else lead ∷ rest

  module _ (o : Objective) (cons : Constraints W) (results : List (TrialResult W)) where
    -- One level of a trial, scored.
    unfoldable pub ranked_at : TrialResult W → LevelMetrics W → Ranked W
    ranked_at r m = record {
      result = r;
      metrics = m;
      score = score o m;
      feasible = same (violation o cons results m) nought;
      violation = violation o cons results m;
    }

    -- `per_level.sort(key=_sort_key); per_level[0]`. There is always a level.
    unfoldable pub best_level : TrialResult W → Ranked W
    unfolding ranked_at
    best_level r = elim (sort before (map (ranked_at r) (levels r))) [
      | [] ↦ ranked_at r r.metrics.whole
      | x ∷ rest ↦ x
    ]

  unfoldable pub rank : List (TrialResult W) → Objective → Constraints W → List (Ranked W)
  unfolding break_ties
  rank results o cons =
      let good = keep_if ok results in
      break_ties cons (sort before (map (best_level o cons good) good))
