-- ===== src/Stages/Confirm.antt =====
-- polyserve/calibrate/search.py: `_remeasure`, `stage_confirm` and `stage_power`.
use polyserve.Base.{
  ℕ, zero, suc, ◌/◌, max, String, not, Option, none, some, List, [], ◌∷◌, ◌++◌, map, if◌then◌else◌,
  str_eq, is_some, keep_if, any, all, length, get_elem?, ◌<>◌, show_ℕ, ltb,
}
use polyserve.Float.{Float, at_most, smaller, magnitude}
use polyserve.Models.{Config, TrialResult, ok, key, lookup}
use polyserve.Objectives.Rank.{Ranked, rank}
use polyserve.Power.Settings.{PowerSetting, is_default, with_power}
use polyserve.Search.{Env, Settings, Search, over_budget, with_skip}
use polyserve.Stages.{
  Strategy, Action, pure, get, modify, ◌>>=◌, ◌>>◌, for_each, trial_only, pick_of,
}
use polyserve.Stages.Contenders.{ranking}

module _ {W X : Type 0} ⦃f : Float W⦄ (st : Strategy W X) where
  abbrev pub least_score : W → List (Ranked W) → W
  least_score best [] = best
  least_score best (x ∷ xs) = least_score (smaller best x.score) xs

  abbrev pub near_best : List (Ranked W) → List (Ranked W)
  near_best [] = []
  near_best (y ∷ ys) =
      let best = least_score y.score ys in
      keep_if (λ x. at_most (f.sub x.score best) (f.mul st.confirm_band (magnitude best))) (y ∷ ys)

  abbrev pub first_only : List (Ranked W) → List (Ranked W)
  first_only [] = []
  first_only (x ∷ xs) = x ∷ []

  abbrev pub candidates_from : List (Ranked W) → List (Ranked W) → List (Ranked W)
  candidates_from ranked [] = first_only ranked
  candidates_from ranked (x ∷ feasible) = near_best (x ∷ feasible)

  -- The first `left` configurations of different keys.
  unfoldable pub shortlist_from : ℕ → List (Config W) → List (Ranked W) → List (Config W)
  shortlist_from zero chosen xs = []
  shortlist_from (suc left) chosen [] = []
  shortlist_from (suc left) chosen (x ∷ xs) =
      if all (λ c. not (str_eq (key c) (key x.result.config))) chosen
      then x.result.config ∷ shortlist_from left (x.result.config ∷ chosen) xs
      else shortlist_from (suc left) chosen xs

  unfoldable pub shortlist : Search W X → List (Config W)
  shortlist s =
      let ranked = ranking st s in
      shortlist_from st.confirm_top [] (candidates_from ranked (keep_if (λ x. x.feasible) ranked))

  -- The runs of each configuration, in the order of the shortlist.
  abbrev pub Runs : Type 0
  Runs = List (Config W × List (TrialResult W))

  unfoldable pub add_run : Config W → TrialResult W → Runs → Runs
  add_run cfg r [] = []
  add_run cfg r ((c, rs) ∷ runs) =
      if str_eq (key c) (key cfg) then (c, rs ++ r ∷ []) ∷ runs else (c, rs) ∷ add_run cfg r runs

  module _ (env : Env W X) (opts : Settings W) (fuel : ℕ) where
    -- The trial itself, timed, without a look at what is remembered.
    unfoldable pub fresh_trial : Config W → Search W X → TrialResult W × Search W X
    fresh_trial cfg s =
        let (t0, w0) = env.now s.world in
        let (res, w1) = env.run_trial cfg "confirm" w0 in
        let (t1, w2) = env.now w1 in
        (
          res,
          record s {
            trial_seconds = s.trial_seconds ++ f.sub t1 t0 ∷ [];
            results = s.results ++ res ∷ [];
            world = w2;
          },
        )

    unfoldable pub remeasure : Config W → Action (Search W X) (Option (TrialResult W))
    remeasure cfg s =
        let (over, s1) = over_budget env opts s in
        if over
        then some (none, with_skip cfg "confirm" s1)
        else some (some (fresh_trial cfg s1).0, (fresh_trial cfg s1).1)

    -- One round: it ends at the first configuration that the budget no longer allows.
    unfoldable pub one_round : List (Config W) → Runs → Action (Search W X) Runs
    one_round [] runs = pure runs
    one_round (c ∷ cs) runs = remeasure c >>= λ r. elim r [
      | none ↦ pure runs
      | some res ↦ one_round cs (add_run c res runs)
    ]

    unfoldable pub rounds : ℕ → List (Config W) → Runs → Action (Search W X) Runs
    rounds zero cfgs runs = pure runs
    rounds (suc n) cfgs runs = one_round cfgs runs >>= λ more. rounds n cfgs more

    abbrev pub median_run : List (Ranked W) → Option (TrialResult W)
    median_run order = elim (get_elem? order (length order / 2)) [
      | none ↦ none
      | some x ↦ some x.result
    ]

    -- The median run of a configuration, among its successful ones.
    abbrev pub representative : List (TrialResult W) → Option (TrialResult W)
    representative rs = median_run (rank rs st.objective st.constraints)

    unfoldable pub representatives : Runs → List (TrialResult W)
    representatives [] = []
    representatives ((c, rs) ∷ runs) = elim (representative rs) [
      | none ↦ representatives runs
      | some r ↦ r ∷ representatives runs
    ]

    abbrev failed_note : Config W × List (TrialResult W) → List String
    failed_note (c, []) = []
    failed_note (c, r ∷ rs) = elim (representative (r ∷ rs)) [
      | none ↦ (key c <> " failed when re-measured, so it was not chosen") ∷ []
      | some x ↦ []
    ]

    abbrev pub failed_notes : Runs → List String
    failed_notes [] = []
    failed_notes (cr ∷ runs) = failed_note cr ++ failed_notes runs

    abbrev speed_of : TrialResult W → String
    speed_of r = elim (rank (r ∷ []) st.objective st.constraints) [
      | [] ↦ ""
      | x ∷ xs ↦ f.fixed 0 x.metrics.tok_s
    ]

    abbrev then_and_now : TrialResult W → Option (TrialResult W) → String
    then_and_now winner none = ""
    then_and_now winner (some orig) =
        if ok orig
        then ": the pick measured "
          <> speed_of orig
          <> " tok/s in the search and "
          <> speed_of winner
          <> " re-measured"
        else ""

    abbrev compared_text : Option (TrialResult W) → Search W X → String
    compared_text none s = ""
    compared_text (some winner) s = then_and_now winner (lookup (key winner.config) s.done)

    abbrev pub confirm_text : ℕ → Option (TrialResult W) → Search W X → String
    confirm_text n winner s =
        "re-measured the best "
        <> show_ℕ n
        <> " configuration"
        <> (if ltb 1 n then "s" else "")
        <> " and chose on the fresh runs"
        <> compared_text winner s

    abbrev pub confirmed :
        ℕ → List (TrialResult W) → Action (Search W X) (Option (List (TrialResult W)))
    confirmed n [] = pure none
    confirmed n (r ∷ reps) = pick_of env opts st fuel (r ∷ reps) >>= λ winner.
        modify (λ s. record s { notes = s.notes ++ confirm_text n winner s ∷ [] })
        >> pure (some (r ∷ reps))

    abbrev pub confirm_list : List (Config W) → Action (Search W X) (Option (List (TrialResult W)))
    confirm_list cfgs = rounds (max 1 st.confirm_rounds) cfgs (map (λ c. (c, [])) cfgs) >>= λ runs.
        modify (λ s. record s { notes = s.notes ++ failed_notes runs })
        >> confirmed (length cfgs) (representatives runs)

    unfoldable pub stage_confirm : Action (Search W X) (Option (List (TrialResult W)))
    stage_confirm = get >>= λ s. confirm_list (shortlist s)

    -- `self._done.setdefault(key, res)`.
    abbrev pub set_default :
        String → TrialResult W → List (String × TrialResult W) → List (String × TrialResult W)
    set_default k r done = if is_some (lookup k done) then done else done ++ (k, r) ∷ []

    abbrev pub swept : TrialResult W → Search W X → Search W X
    swept r s = record s {
      results = s.results ++ r ∷ [];
      done = set_default (key r.config) r s.done;
    }

    unfoldable pub add_swept : List (TrialResult W) → Search W X → Search W X
    add_swept [] s = s
    add_swept (r ∷ rs) s = add_swept rs (swept r s)

    abbrev pub power_trial : Config W → PowerSetting → Action (Search W X) (Unit {0})
    power_trial base p =
        if is_default p then pure tt else trial_only env opts st fuel "power" (with_power base p)

    -- One launch for all settings, where the runner has a sweep.
    abbrev pub power_with :
        Config W
        → Option (Config W → List PowerSetting → String → X → List (TrialResult W) × X)
        → Action (Search W X) (Unit {0})
    power_with base none = for_each (power_trial base) st.power_points
    power_with base (some sweep) = modify (λ s.
        (let (rs, w) = sweep base st.power_points "power" s.world in
          add_swept rs (record s { world = w })))

    unfoldable pub stage_power : Config W → Action (Search W X) (Unit {0})
    stage_power base =
        if any (λ p. not (is_default p)) st.power_points then power_with base env.sweep else pure tt
