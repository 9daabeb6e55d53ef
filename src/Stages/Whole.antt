-- ===== src/Stages/Whole.antt =====
-- polyserve/calibrate/search.py: `StagedSearch.run`, from the planned configurations to the winner, and
-- `_power_note`.
use polyserve.Base.{
  ℕ, zero, suc, ◌-◌, String, Bool, not, ◌&&◌, ◌||◌, Option, none, some, List, [], ◌∷◌, ◌++◌,
  if◌then◌else◌, str_eq, keep_if, length, drop, take, get_or_default, ◌<>◌, show_ℕ, join, ltb,
}
use polyserve.Base.Sort.{sort}
use polyserve.Float.{Float, from_ℕ, nought, below, same}
use polyserve.Models.{Config, TrialResult, ok, key, base_key}
use polyserve.Objectives.Pick.{pick}
use polyserve.Power.Settings.{
  PowerSetting, is_default, default_setting, with_power, setting_of, label,
}
use polyserve.Search.{Env, Settings, Search, eligible}
use polyserve.Stages.{Strategy, Action, any_spec, pure, get, ◌>>=◌, ◌>>◌, for_each, pick_of}
use polyserve.Stages.Quant.{stage_quant}
use polyserve.Stages.Groups.{Group}
use polyserve.Stages.Memory.{stage_memory, stage_batch}
use polyserve.Stages.Variants.{stage_variants, stage_explore}
use polyserve.Stages.Contenders.{contenders, offer_count, tune_unless_outpaced}
use polyserve.Stages.Confirm.{stage_confirm, stage_power}

abbrev pub Winner : Type 0 → Type 0
Winner W = Option (TrialResult W) × List String

module _ {W : Type 0} ⦃f : Float W⦄ where
  -- `max(rs, key=lambda r: r.metrics.tok_s)`.
  abbrev quickest : TrialResult W → List (TrialResult W) → TrialResult W
  quickest best [] = best
  quickest best (r ∷ rs) =
      quickest (if below best.metrics.tok_s r.metrics.tok_s then r else best) rs

  -- The change of a value in percent.
  abbrev change_of : W → W → W
  change_of new old = f.mul (f.div (f.sub new old) old) (from_ℕ 100)

  -- A text for two values that are there and not 0.
  abbrev when_both : (W → W → String) → Option W → Option W → String
  when_both text (some a) (some b) = if same a nought || same b nought then "" else text a b
  when_both text _ _ = ""

  abbrev against_text : PowerSetting → TrialResult W → TrialResult W → String
  against_text s w r =
      let tok =
        if same r.metrics.tok_s nought then nought else change_of w.metrics.tok_s r.metrics.tok_s in
      "power setting chosen: "
      <> label s
      <> " ("
      <> f.signed tok
      <> "% tok/s"
      <> when_both (λ a b. ", " <> f.signed (change_of a b) <> "% J/token")
          w.metrics.joules_per_token r.metrics.joules_per_token
      <> when_both (λ a b. ", " <> f.fixed 0 a <> " W vs " <> f.fixed 0 b <> " W") w.metrics.power_w
          r.metrics.power_w
      <> " against the same config at default power)"

  abbrev against : PowerSetting → TrialResult W → List (TrialResult W) → String
  against s winner [] = "power setting chosen: " <> label s
  against s winner (r ∷ rs) = against_text s winner (quickest r rs)

  abbrev same_base : TrialResult W → TrialResult W → Bool
  same_base winner r = str_eq (base_key r.config) (base_key winner.config)

  unfoldable pub power_note :
      TrialResult W → List (TrialResult W) → List (TrialResult W) → List String
  power_note winner pool results =
      let s = setting_of winner.config in
      let uncapped =
        keep_if (λ r. ok r && (same_base winner r && is_default (setting_of r.config))) pool in
      let tried =
        keep_if (λ r. same_base winner r && not (is_default (setting_of r.config))) results in
      elim tried [
        | [] ↦ []
        | t ∷ ts ↦
            if is_default s
            then ("power stage tried "
                <> show_ℕ (length (t ∷ ts))
                <> " settings; none saved energy within the allowed throughput loss")
              ∷ []
            else against s winner uncapped ∷ []
      ]

  module _ {X : Type 0} (st : Strategy W X) (env : Env W X) (opts : Settings W) (fuel : ℕ) where
    abbrev pub variations : Config W → Action (Search W X) (Unit {0})
    variations base =
        for_each (λ nf. stage_variants st env opts fuel nf.0 nf.1 (some base.backend) any_spec)
          st.variant_stages

    -- With a budget the variations come before the memory and batch sweeps.
    abbrev pub early_variations : Option W → Action (Search W X) (Unit {0})
    early_variations none = pure tt
    early_variations (some budget) = contenders st "the precision stage" >>= for_each variations

    abbrev pub by_offers : List (Config W) → List (Config W)
    by_offers =
        sort (λ a b. ltb (offer_count st.variant_stages b) (offer_count st.variant_stages a))

    -- Stages 2 to 3g.
    unfoldable pub middle_stages : List (Config W) → List Group → Action (Search W X) (Unit {0})
    middle_stages feasible kept =
        early_variations opts.budget_s
        >> (stage_memory st env opts fuel feasible kept >>= λ chosen.
            stage_batch st env opts fuel feasible chosen
            >> (contenders st "the batch stage" >>= λ bases.
                for_each (tune_unless_outpaced st env opts fuel) (by_offers bases)
                >> stage_explore st env opts fuel))

    -- `self.stage_confirm() or pool`.
    abbrev pub or_pool : List (TrialResult W) → Option (List (TrialResult W)) → List (TrialResult W)
    or_pool pool (some (r ∷ reps)) = r ∷ reps
    or_pool pool _ = pool

    unfoldable pub final_pool : Action (Search W X) (List (TrialResult W))
    final_pool = get >>= λ s. (elim st.confirm_top [
      | zero ↦ pure (eligible st.refused s.results)
      | suc n ↦ stage_confirm st env opts fuel >>= λ reps.
          pure (or_pool (eligible st.refused s.results) reps)
    ])

    abbrev pub powered_from :
        List (TrialResult W) → TrialResult W → ℕ → Action (Search W X) (List (TrialResult W))
    powered_from pool lead before =
        stage_power st env opts fuel (with_power lead.config default_setting)
        >> (get >>= λ t. pure (pool ++ drop before t.results))

    abbrev pub powered_by :
        List (TrialResult W) → Option (TrialResult W) → Action (Search W X) (List (TrialResult W))
    powered_by pool none = pure pool
    powered_by pool (some lead) = get >>= λ s. powered_from pool lead (length s.results)

    -- The pool with the trials of the power stage; it is a list of its own, so they are added.
    unfoldable pub powered : List (TrialResult W) → Action (Search W X) (List (TrialResult W))
    powered pool = elim st.power_points [
      | [] ↦ pure pool
      | p ∷ ps ↦ pick_of env opts st fuel pool >>= λ lead. powered_by pool lead
    ]

    abbrev pub power_notes :
        Option (TrialResult W) → List (TrialResult W) → Search W X → List String
    power_notes none pool s = []
    power_notes (some winner) pool s = elim st.power_points [
      | [] ↦ []
      | p ∷ ps ↦ power_note winner pool s.results
    ]

    abbrev and_more : ℕ → String
    and_more n = if ltb 5 n then "; and " <> show_ℕ (n - 5) <> " more" else ""

    abbrev pub skip_notes : Search W X → List String
    skip_notes s = elim s.skipped [
      | [] ↦ []
      | x ∷ xs ↦
          ("calibration budget of "
            <> f.fixed 0 (get_or_default nought opts.budget_s)
            <> "s reached after "
            <> show_ℕ (length s.results)
            <> " trials; skipped "
            <> show_ℕ (length (x ∷ xs))
            <> ": "
            <> join "; " (take 5 (x ∷ xs))
            <> and_more (length (x ∷ xs)))
          ∷ []
    ]

    -- The winner of the pool, and all notes; `none` of `pick` is its TypeError.
    unfoldable pub conclude : List (TrialResult W) → Action (Search W X) (Winner W)
    conclude pool s = elim (pick pool st.objective st.constraints) [
      | none ↦ none
      | some (winner, notes) ↦
          let more = notes ++ power_notes winner pool s in
          let all = s.notes ++ skip_notes s in
          some ((winner, all ++ more), record s { notes = all })
    ]

    abbrev failure_note : TrialResult W → List String
    failure_note r = elim r.error [
      | none ↦ []
      | some e ↦ if str_eq e "" then [] else (key r.config <> ": " <> e) ∷ []
    ]

    abbrev pub failure_notes : List (TrialResult W) → List String
    failure_notes [] = []
    failure_notes (r ∷ rs) = failure_note r ++ failure_notes rs

    abbrev pub all_failed : Action (Search W X) (Winner W)
    all_failed = get >>= λ s. pure (none, "every stage-1 trial failed" ∷ failure_notes s.results)

    unfoldable pub later_stages : List (Config W) → List Group → Action (Search W X) (Winner W)
    later_stages feasible kept =
        middle_stages feasible kept >> (final_pool >>= λ pool. powered pool >>= conclude)

    abbrev pub with_kept : List (Config W) → List Group → Action (Search W X) (Winner W)
    with_kept feasible [] = all_failed
    with_kept feasible (k ∷ kept) = later_stages feasible (k ∷ kept)

    unfoldable pub run_stages : List (Config W) → Action (Search W X) (Winner W)
    run_stages [] = pure (none, "memory planner left no feasible configuration" ∷ [])
    run_stages (c ∷ feasible) =
        stage_quant st env opts fuel (c ∷ feasible) >>= with_kept (c ∷ feasible)
