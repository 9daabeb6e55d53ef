-- ===== src/Stages/Quant.antt =====
-- polyserve/calibrate/search.py: the baselines of a precision, the engines that cannot catch up, and
-- `stage_quant`.
use polyserve.Base.{
  or_list, ℕ, String, Bool, not, ◌&&◌, ◌||◌, Option, none, some, List, [], ◌∷◌, ◌++◌, map,
  if◌then◌else◌, str_eq, ltb, ◌==◌, ◌<>◌, is_some, keep_if, get_or_default, any, take,
}
use polyserve.Base.Sort.{sort}
use polyserve.Float.{Float, nought, from_ℕ, below, same, larger}
use polyserve.Models.{Config, TrialResult, ok, lookup}
use polyserve.Objectives.Rank.{Ranked, rank}
use polyserve.Search.{Env, Settings, Search}
use polyserve.Stages.{Strategy, Action, pure, modify, fail, ◌>>=◌, ◌>>◌, note, for_each, trial}
use polyserve.Stages.Groups.{
  Group, same_group, group_of, middle_of, nearest_to, grouped_from, head_of, speed_matters,
}

module _ {W : Type 0} ⦃f : Float W⦄ where
  abbrev knob_of : Option W → Option ℕ → W
  knob_of (some gmu) layers = gmu
  knob_of none (some n) = from_ℕ n
  knob_of none none = nought

  unfoldable pub memory_knob : Config W → W
  memory_knob c = knob_of c.gpu_memory_utilization c.n_gpu_layers

  -- `(_memory_knob(a), a.n_batch or 0) < (_memory_knob(b), b.n_batch or 0)`.
  unfoldable pub asks_less : Config W → Config W → Bool
  asks_less a b =
      below (memory_knob a) (memory_knob b)
      || (same (memory_knob a) (memory_knob b)
          && ltb (get_or_default 0 a.n_batch) (get_or_default 0 b.n_batch))

  abbrev pub nearest_group : ℕ → List (Config W) → List (Config W)
  nearest_group batch [] = []
  nearest_group batch (c ∷ cs) =
      let near = nearest_to batch c.batch (map (λ d. d.batch) cs) in
      keep_if (λ d. d.batch == near) (c ∷ cs)

  unfoldable pub baseline_candidates : List (Config W) → List (Config W)
  baseline_candidates group =
      let ctx = middle_of (map (λ c. c.ctx) group) in
      let batch = middle_of (map (λ c. c.batch) group) in
      let at_ctx = keep_if (λ c. c.ctx == ctx) group in
      let both = keep_if (λ c. c.ctx == ctx && c.batch == batch) group in
      sort (λ a b. asks_less b a) (or_list both (nearest_group batch (or_list at_ctx group)))

  -- `_baseline`; `none` is the IndexError of a group without candidates.
  unfoldable pub baseline : List (Config W) → Option (Config W)
  baseline group = head_of (baseline_candidates group)

  -- `best[k] = max(best.get(k, 0.0), v)`.
  unfoldable pub max_into : String → W → List (String × W) → List (String × W)
  max_into k v [] = (k, larger nought v) ∷ []
  max_into k v ((j, w) ∷ best) =
      if str_eq j k then (j, larger w v) ∷ best else (j, w) ∷ max_into k v best

  unfoldable pub best_within : List (Ranked W) → List (String × W) → List (String × W)
  best_within [] best = best
  best_within (x ∷ xs) best =
      best_within xs
        (if x.feasible then max_into x.result.config.backend (f.neg x.score) best else best)

  unfoldable pub best_raw : List (TrialResult W) → List (String × W) → List (String × W)
  best_raw [] best = best
  best_raw (r ∷ rs) best =
      best_raw rs (
        if same r.metrics.tok_s nought
        then best
        else max_into r.config.backend r.metrics.tok_s best)

  -- `max(rivals.items(), key=lambda kv: kv[1])`: the first of the greatest.
  abbrev fastest : String × W → List (String × W) → String × W
  fastest best [] = best
  fastest best (x ∷ xs) = fastest (if below best.1 x.1 then x else best) xs

  abbrev losing_text : W → String → W → String × W → String
  losing_text share backend tok lead =
      backend
      <> " reached at most "
      <> f.fixed 0 tok
      <> " tok/s, under "
      <> f.percent share
      <> " of "
      <> lead.0
      <> "'s "
      <> f.fixed 0 lead.1
      <> " within the objective's constraints"

  abbrev losing_to : W → String × W → List (String × W) → List (String × String)
  losing_to share b [] = []
  losing_to share b (r ∷ rivals) =
      let lead = fastest r rivals in
      if below b.1 (f.mul share lead.1) then (b.0, losing_text share b.0 b.1 lead) ∷ [] else []

  -- Whether `backend` is out, with the reason.
  abbrev losing_one :
      W → List (String × String) → List (String × W) → String × W → List (String × String)
  losing_one share already within b =
      if is_some (lookup b.0 already)
      then []
      else losing_to share b (keep_if (λ w. not (str_eq w.0 b.0)) within)

  abbrev losing_all :
      W → List (String × String) → List (String × W) → List (String × W) → List (String × String)
  losing_all share already within [] = []
  losing_all share already within (b ∷ bound) =
      losing_one share already within b ++ losing_all share already within bound

  module _ {X : Type 0} (st : Strategy W X) where
    unfoldable pub losing_backends :
        List (TrialResult W) → List (String × String) → List (String × String)
    losing_backends results already =
        if not (speed_matters st.objective) || same st.drop_backend_below nought
        then []
        else (let good = keep_if ok results in
            losing_all st.drop_backend_below already
              (best_within (rank good st.objective st.constraints) []) (best_raw good []))

    -- The groups that have a prediction, in order; `none` is the IndexError of `_baseline`.
    unfoldable pub predictions : List (Group × List (Config W)) → Option (List (Group × W))
    predictions [] = some []
    predictions ((k, group) ∷ groups) = elim (baseline group) [
      | none ↦ none
      | some c ↦ elim (predictions groups) [
        | none ↦ none
        | some ps ↦ elim (st.predicted c) [ none ↦ some ps | some p ↦ some ((k, p) ∷ ps) ]
      ]
    ]

    abbrev pub best_predicted : W → List (Group × W) → W
    best_predicted best [] = best
    best_predicted best ((k, p) ∷ ps) = best_predicted (larger best p) ps

    abbrev pub skip_text : Group → String → String
    skip_text k why = "skipped " <> k.0 <> "/" <> k.1 <> ": " <> why

    abbrev pub far_below : W → Group × W → Bool
    far_below best kp = below kp.1 (f.mul st.prune_below best)

    abbrev pub without :
        List Group → List (Group × List (Config W)) → List (Group × List (Config W))
    without ks groups = keep_if (λ g. not (any (λ k. same_group k g.0) ks)) groups

    abbrev pub prune_text : W → Group × W → String
    prune_text best kp = skip_text kp.0 (
        "predicted "
        <> f.fixed 0 kp.1
        <> " tok/s < "
        <> f.percent st.prune_below
        <> " of best predicted "
        <> f.fixed 0 best)

    -- Predictor-guided pruning of the groups.
    abbrev pub prune :
        List (Group × W)
        → List (Group × List (Config W))
        → Action (Search W X) (List (Group × List (Config W)))
    prune [] groups = pure groups
    prune ((k, p) ∷ ps) groups =
        let best = best_predicted p ps in
        let far = keep_if (far_below best) ((k, p) ∷ ps) in
        for_each (λ kp. note (prune_text best kp)) far
        >> pure (without (map (λ kp. kp.0) far) groups)

    module _ (env : Env W X) (opts : Settings W) (fuel : ℕ) where
      -- The largest memory setting first; the next only if the launch itself fails.
      unfoldable pub first_launched : List (Config W) → Action (Search W X) (Option (TrialResult W))
      first_launched [] = pure none
      first_launched (c ∷ []) = trial env opts st fuel c "quant" >>= λ r. pure (some r)
      first_launched (c ∷ d ∷ cs) = trial env opts st fuel c "quant" >>= λ r.
          if r.launched then pure (some r) else first_launched (d ∷ cs)

      abbrev pub Measured : Type 0
      Measured = List (TrialResult W) × List (String × String)

      abbrev pub after_trial : Measured → Option (TrialResult W) → Measured
      after_trial m none = m
      after_trial m (some r) =
          let results = m.0 ++ r ∷ [] in (results, m.1 ++ losing_backends results m.1)

      unfoldable pub measure_groups :
          List (Group × List (Config W)) → Measured → Action (Search W X) Measured
      measure_groups [] m = pure m
      measure_groups ((k, group) ∷ groups) m = elim (lookup k.0 m.1) [
        | some why ↦ note (skip_text k why) >> measure_groups groups m
        | none ↦
            first_launched (take st.max_memory_trials_per_quant (baseline_candidates group))
            >>= λ r. measure_groups groups (after_trial m r)
      ]

      abbrev pub kept_groups : Measured → List Group
      kept_groups m = take st.top_quants (
          map (λ x. group_of x.result.config)
            (keep_if (λ x. not (is_some (lookup x.result.config.backend m.1)))
              (rank (keep_if ok m.0) st.objective st.constraints)))

      abbrev pub quality_notes : Option (X → List String) → Action (Search W X) (Unit {0})
      quality_notes none = pure tt
      quality_notes (some summary) = modify (λ s. record s { notes = s.notes ++ summary s.world })

      unfoldable pub stage_quant : List (Config W) → Action (Search W X) (List Group)
      stage_quant feasible =
          let groups = grouped_from [] feasible in
          elim (predictions groups) [
            | none ↦ fail
            | some ps ↦ prune ps groups >>= λ left. measure_groups left ([], []) >>= λ m.
                quality_notes st.quality_summary >> pure (kept_groups m)
          ]
