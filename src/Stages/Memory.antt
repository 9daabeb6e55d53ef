-- ===== src/Stages/Memory.antt =====
-- polyserve/calibrate/search.py: `stage_memory`, `stage_batch` and `stage_prefill`.
use polyserve.Base.{
  ℕ, String, Bool, true, false, ◌&&◌, ◌||◌, Option, none, some, List, [], ◌∷◌, if◌then◌else◌, ltb,
  ◌==◌, is_some, keep_if, get_or_default, any, all, take, find_first,
}
use polyserve.Base.Sort.{sort}
use polyserve.Float.{Float, nought, below, same}
use polyserve.Models.{Config, TrialResult, ok}
use polyserve.Search.{Env, Settings, Search, allowed}
use polyserve.Stages.{
  Strategy, Variants, Action, pure, get, fail, ◌>>=◌, ◌>>◌, for_each, trial, trial_only,
  log_variant,
}
use polyserve.Stages.Quant.{memory_knob, baseline}
use polyserve.Stages.Groups.{Group, same_group, group_of}

abbrev pub same_number? : Option ℕ → Option ℕ → Bool
same_number? none none = true
same_number? (some a) (some b) = a == b
same_number? _ _ = false

module _ {W : Type 0} ⦃f : Float W⦄ where
  -- `(_memory_knob(a), a.ctx) < (_memory_knob(b), b.ctx)`, and equality of the two.
  abbrev pub smaller_shape : Config W → Config W → Bool
  smaller_shape a b =
      below (memory_knob a) (memory_knob b)
      || (same (memory_knob a) (memory_knob b) && ltb a.ctx b.ctx)

  abbrev pub same_shape : Config W → Config W → Bool
  same_shape a b = same (memory_knob a) (memory_knob b) && a.ctx == b.ctx

  -- The first configuration of each shape.
  unfoldable pub first_shapes : List (Config W) → List (Config W) → List (Config W)
  first_shapes seen [] = []
  first_shapes seen (c ∷ cs) = elim (any (same_shape c) seen) [
    | true ↦ first_shapes seen cs
    | false ↦ c ∷ first_shapes (c ∷ seen) cs
  ]

  abbrev pub in_group : Group → Config W → Bool
  in_group k c = same_group (group_of c) k

  abbrev pub succeeded_in : Group → TrialResult W → Bool
  succeeded_in k r = ok r && in_group k r.config

  abbrev pub config_of : Config W → Option (TrialResult W) → Config W
  config_of base none = base
  config_of base (some r) = r.config

  unfoldable pub memory_trials : List (Config W) → Config W → List (Config W)
  memory_trials group base =
      let same_batch =
        keep_if (λ c. c.batch == base.batch && same_number? c.n_batch base.n_batch) group in
      first_shapes [] (sort (λ a b. smaller_shape b a) same_batch)

  -- `sort(key=lambda c: -preds[c.key()])`, and by the batch settings.
  abbrev pub batch_order : Config W → Config W → Bool
  batch_order a b =
      ltb a.batch b.batch
      || (a.batch == b.batch && ltb (get_or_default 0 a.n_batch) (get_or_default 0 b.n_batch))

  module _ {X : Type 0} (st : Strategy W X) where
    abbrev pub slower : Config W → Config W → Bool
    slower a b =
        below (f.neg (get_or_default nought (st.predicted a)))
          (f.neg (get_or_default nought (st.predicted b)))

    unfoldable pub batch_variants : List (Config W) → Group → Config W → List (Config W)
    batch_variants feasible k mem =
        let variants =
          keep_if
            (λ c. in_group k c && (c.ctx == mem.ctx && same (memory_knob c) (memory_knob mem)))
            feasible in
        if all (λ c. is_some (st.predicted c)) variants
        then sort slower variants
        else sort batch_order variants

    module _ (env : Env W X) (opts : Settings W) (fuel : ℕ) where
      -- The first configuration whose trial succeeds.
      unfoldable pub first_ok : List (Config W) → Action (Search W X) (Option (Config W))
      first_ok [] = pure none
      first_ok (c ∷ cs) =
          trial env opts st fuel c "memory" >>= λ r. if ok r then pure (some c) else first_ok cs

      abbrev pub fall_back : Group → Option (Config W) → Search W X → Option (Config W)
      fall_back k (some c) s = some c
      fall_back k none s = elim (find_first (succeeded_in k) s.results) [
        | none ↦ none
        | some r ↦ some r.config
      ]

      -- One precision: `base` is the default of `next`, which is evaluated first.
      abbrev pub memory_from :
          List (Config W) → Group → Config W → Action (Search W X) (Option (Config W))
      memory_from feasible k base = get >>= λ s.
          (let start = config_of base (find_first (succeeded_in k) s.results) in
            first_ok (
              take st.max_memory_trials_per_quant
                (memory_trials (keep_if (in_group k) feasible) start)))
          >>= λ winner. get >>= λ t. pure (fall_back k winner t)

      abbrev pub choose_memory :
          List (Config W) → Group → Option (Config W) → Action (Search W X) (Option (Config W))
      choose_memory feasible k none = fail
      choose_memory feasible k (some base) = memory_from feasible k base

      abbrev pub put_chosen :
          Group → Option (Config W) → List (Group × Config W) → List (Group × Config W)
      put_chosen k none chosen = chosen
      put_chosen k (some c) chosen = (k, c) ∷ chosen

      -- The groups of `kept` are distinct, so each is a new entry of the dictionary.
      unfoldable pub stage_memory :
          List (Config W) → List Group → Action (Search W X) (List (Group × Config W))
      stage_memory feasible [] = pure []
      stage_memory feasible (k ∷ ks) =
          choose_memory feasible k (baseline (keep_if (in_group k) feasible)) >>= λ winner.
          stage_memory feasible ks >>= λ rest. pure (put_chosen k winner rest)

      unfoldable pub stage_batch :
          List (Config W) → List (Group × Config W) → Action (Search W X) (Unit {0})
      stage_batch feasible chosen =
          for_each
            (λ kc.
              for_each (trial_only env opts st fuel "batch") (batch_variants feasible kc.0 kc.1))
            chosen

      -- One variant along `dim`, unless it is known not to start.
      abbrev pub try_variant : String → Config W → Config W → Action (Search W X) (Unit {0})
      try_variant dim base v = trial_only env opts st fuel dim v >> log_variant dim base v

      abbrev pub try_allowed : Config W → Config W → Action (Search W X) (Unit {0})
      try_allowed base v =
          if allowed opts.feasible_fn v then try_variant "prefill" base v else pure tt

      abbrev pub prefill_with : Config W → Option (List (Config W)) → Action (Search W X) (Unit {0})
      prefill_with base none = pure tt
      prefill_with base (some vs) = for_each (try_allowed base) vs

      abbrev pub prefill_from : Config W → Option (Variants W) → Action (Search W X) (Unit {0})
      prefill_from base none = pure tt
      prefill_from base (some fn) = prefill_with base (fn base)

      unfoldable pub stage_prefill : Config W → Action (Search W X) (Unit {0})
      stage_prefill base = prefill_from base st.prefill_variants
