-- ===== src/Stages/Contenders.antt =====
-- polyserve/calibrate/search.py: the engines that are tuned further, and `_tune`.
use polyserve.Base.{
  ℕ, ◌+◌, ◌/◌, max, String, Bool, true, false, not, ◌&&◌, ◌||◌, Option, none, some, List, [], ◌∷◌,
  ◌++◌, if◌then◌else◌, str_eq, is_text, keep_if, any, length, find_first, ◌<>◌, get_or_default, ltb,
}
use polyserve.Float.{Float, nought, at_most, same, magnitude}
use polyserve.Models.{Config, TrialResult}
use polyserve.Objectives.Rank.{Ranked, rank}
use polyserve.Search.{Env, Settings, Search, eligible}
use polyserve.Stages.{
  Strategy, Variants, Action, Spec, any_spec, only, same_text?, pure, get, modify, fail, ◌>>=◌,
  ◌>>◌, for_each, note, leader_of,
}
use polyserve.Stages.Memory.{stage_prefill}
use polyserve.Stages.Variants.{stage_variants}
use polyserve.Stages.Combine.{stage_combinations}

-- STAGE_NAMES.
abbrev stage_name : String → String
stage_name name =
    if str_eq name "kv"
    then "a quantized KV cache"
    else if str_eq name "prefix"
    then "prefix-cache settings"
    else if str_eq name "spec"
    then "speculative decoding"
    else name

-- A name that is there and not empty.
abbrev pub is_offer : Option String → Bool
is_offer none = false
is_offer (some name) = is_text name

module _ {W : Type 0} where
  -- The stage proposes something for `cfg` and nothing for `lead`; one that raises offers nothing.
  abbrev nothing_for : Option (List (Config W)) → Bool
  nothing_for (some []) = true
  nothing_for _ = false

  abbrev something_for : Option (List (Config W)) → Bool
  something_for (some (v ∷ vs)) = true
  something_for _ = false

  unfoldable pub offers_more : List (String × Variants W) → Config W → Config W → Option String
  offers_more [] cfg lead = none
  offers_more ((name, fn) ∷ stages) cfg lead =
      if something_for (fn cfg) && nothing_for (fn lead)
      then some name
      else offers_more stages cfg lead

  unfoldable pub offer_count : List (String × Variants W) → Config W → ℕ
  offer_count [] cfg = 0
  offer_count ((name, fn) ∷ stages) cfg =
      (if something_for (fn cfg) then 1 else 0) + offer_count stages cfg

module _ {W X : Type 0} ⦃f : Float W⦄ (st : Strategy W X) where
  unfoldable pub ranking : Search W X → List (Ranked W)
  ranking s = rank (eligible st.refused s.results) st.objective st.constraints

  abbrev pub engine : Ranked W → String
  engine x = x.result.config.backend

  abbrev pub relative_gap : Ranked W → Ranked W → W
  relative_gap mine lead =
      if same lead.score nought
      then nought
      else f.div (f.sub mine.score lead.score) (magnitude lead.score)

  abbrev pub outpaced_text : Config W → Ranked W → W → String
  outpaced_text base lead gap =
      base.backend
      <> " was not tuned further: "
      <> engine lead
      <> " led it by "
      <> f.percent gap
      <> " once tuned, and "
      <> base.backend
      <> " offers nothing "
      <> engine lead
      <> " does not"

  -- `next(r.config for r in self.results if …)`: `none` is its StopIteration.
  abbrev pub behind :
      Config W → Ranked W → Ranked W → Option (TrialResult W) → Action (Search W X) Bool
  behind base lead mine none = fail
  behind base lead mine (some first) =
      if at_most (relative_gap mine lead) st.contender_band
        || is_offer (offers_more st.variant_stages mine.result.config first.config)
      then pure false
      else note (outpaced_text base lead (relative_gap mine lead)) >> pure true

  abbrev pub outpaced_by :
      Config W → Ranked W → Option (Ranked W) → Search W X → Action (Search W X) Bool
  outpaced_by base lead none s = pure false
  outpaced_by base lead (some mine) s =
      if str_eq (engine lead) base.backend || not (lead.feasible && mine.feasible)
      then pure false
      else behind base lead mine (find_first (λ r. str_eq r.config.backend (engine lead)) s.results)

  abbrev pub outpaced_in : Config W → List (Ranked W) → Search W X → Action (Search W X) Bool
  outpaced_in base [] s = pure false
  outpaced_in base (lead ∷ rest) s =
      if at_most st.contender_band nought
      then pure false
      else outpaced_by base lead (find_first (λ x. str_eq (engine x) base.backend) (lead ∷ rest)) s

  unfoldable pub outpaced : Config W → Action (Search W X) Bool
  outpaced base = get >>= λ s. outpaced_in base (ranking s) s

  -- The first `left` speculation settings of a ranking that differ.
  unfoldable pub settings_of : ℕ → List (Option String) → List (Ranked W) → List (Option String)
  settings_of left out [] = out
  settings_of left out (x ∷ xs) =
      let setting = x.result.config.spec_decode in
      let out' = if any (same_text? setting) out then out else out ++ setting ∷ [] in
      let rest = settings_of left out' xs in if ltb (length out') left then rest else out'

  unfoldable pub spec_settings : String → Search W X → List (Option String)
  spec_settings backend s = settings_of st.spec_beam [] (
      rank (keep_if (λ r. str_eq r.config.backend backend) (eligible st.refused s.results))
        st.objective st.constraints)

  abbrev is_close : Ranked W → Ranked W → Bool
  is_close lead x =
      at_most (f.sub x.score lead.score) (f.mul st.contender_band (magnitude lead.score))

  abbrev contender_text : String → Ranked W → Ranked W → Option String → String
  contender_text after lead x extra =
      if is_close lead x
      then engine x
        <> " came within "
        <> f.percent st.contender_band
        <> " of the leading "
        <> engine lead
        <> " after "
        <> after
        <> ", so it was tuned as well"
      else engine x
        <> " was more than "
        <> f.percent st.contender_band
        <> " behind the leading "
        <> engine lead
        <> " after "
        <> after
        <> ", but was tuned as well: it offers "
        <> stage_name (get_or_default "" extra)
        <> ", which "
        <> engine lead
        <> " does not"

  -- A budgeted run asks twice; it is said once.
  abbrev pub note_contender : String → Ranked W → Ranked W → Option String → Search W X → Search W X
  note_contender after lead x extra s =
      if any (str_eq (engine x)) s.noted_contenders then s else record s {
        noted_contenders = engine x ∷ s.noted_contenders;
        notes = s.notes ++ contender_text after lead x extra ∷ [];
      }

  abbrev pub extra_offer : Ranked W → Ranked W → Option String
  extra_offer lead x =
      if is_close lead x
      then none
      else offers_more st.variant_stages x.result.config lead.result.config

  abbrev pub contends : Ranked W → Ranked W → Bool
  contends lead x =
      not (at_most st.contender_band nought)
      && (lead.feasible && x.feasible)
      && (is_close lead x || is_offer (extra_offer lead x))

  unfoldable pub contenders_in :
      String → Ranked W → List String → List (Ranked W) → Action (Search W X) (List (Config W))
  contenders_in after lead seen [] = pure []
  contenders_in after lead seen (x ∷ xs) =
      if any (str_eq (engine x)) seen
      then contenders_in after lead seen xs
      else if contends lead x
      then modify (note_contender after lead x (extra_offer lead x))
        >> (contenders_in after lead (engine x ∷ seen) xs >>= λ rest. pure (x.result.config ∷ rest))
      else contenders_in after lead (engine x ∷ seen) xs

  abbrev pub contenders_from : String → List (Ranked W) → Action (Search W X) (List (Config W))
  contenders_from after [] = pure []
  contenders_from after (lead ∷ rest) =
      contenders_in after lead (engine lead ∷ []) rest >>= λ out. pure (lead.result.config ∷ out)

  unfoldable pub contenders : String → Action (Search W X) (List (Config W))
  contenders after = get >>= λ s. contenders_from after (ranking s)

  module _ (env : Env W X) (opts : Settings W) (fuel : ℕ) where
    abbrev pub run_stages :
        Option String → Spec → List (String × Variants W) → Action (Search W X) (Unit {0})
    run_stages backend spec stages =
        for_each (λ nf. stage_variants st env opts fuel nf.0 nf.1 backend spec) stages

    abbrev pub maybe_combine : Config W → Spec → Option ℕ → Action (Search W X) (Unit {0})
    maybe_combine base spec limit =
        if st.combine then stage_combinations st env opts fuel base spec limit else pure tt

    abbrev pub is_spec : String × Variants W → Bool
    is_spec nf = str_eq nf.0 "spec"

    unfoldable pub tune_plain : Config W → Action (Search W X) (Unit {0})
    tune_plain base =
        stage_prefill st env opts fuel base
        >> run_stages (some base.backend) any_spec st.variant_stages
        >> maybe_combine base any_spec none

    -- The rest of the stages on the best configuration with one speculation setting.
    abbrev pub tune_start :
        Config W → ℕ → Option String → Option (TrialResult W) → Action (Search W X) (Unit {0})
    tune_start base limit setting none = pure tt
    tune_start base limit setting (some start) =
        stage_prefill st env opts fuel start.config
        >> run_stages (some base.backend) (only setting)
            (keep_if (λ nf. not (is_spec nf)) st.variant_stages)
        >> maybe_combine start.config (only setting) (some limit)

    abbrev pub tune_setting : Config W → ℕ → Option String → Action (Search W X) (Unit {0})
    tune_setting base limit setting =
        leader_of env opts st fuel (some base.backend) (only setting) >>= λ start.
        tune_start base limit setting start

    abbrev pub tune_settings : Config W → List (Option String) → Action (Search W X) (Unit {0})
    tune_settings base settings =
        for_each (tune_setting base (max 2 (st.max_combinations / max 1 (length settings))))
          settings

    unfoldable pub tune_spec_first : Config W → Action (Search W X) (Unit {0})
    tune_spec_first base =
        run_stages (some base.backend) any_spec (keep_if is_spec st.variant_stages)
        >> (get >>= λ s. tune_settings base (spec_settings base.backend s))

    unfoldable pub tune : Config W → Action (Search W X) (Unit {0})
    tune base =
        if st.spec_first && any is_spec st.variant_stages
        then tune_spec_first base
        else tune_plain base

    unfoldable pub tune_unless_outpaced : Config W → Action (Search W X) (Unit {0})
    tune_unless_outpaced base = outpaced base >>= λ out. if out then pure tt else tune base
