-- ===== src/Stages/Combine.antt =====
-- polyserve/calibrate/search.py: `_relative_gain`, `_leader_without_each` and `stage_combinations`.
use polyserve.Base.{
  ℕ, zero, suc, String, Bool, false, not, ◌&&◌, Option, none, some, List, [], ◌∷◌, ◌++◌, map,
  if◌then◌else◌, str_eq, is_some, keep_if, any, take, get_or_default,
}
use polyserve.Base.Sort.{sort}
use polyserve.Float.{Float, nought, below, same, magnitude}
use polyserve.Models.{Config, TrialResult, Value, ok, key, lookup}
use polyserve.Objectives.Rank.{Ranked, rank}
use polyserve.Search.{Env, Settings, Search, allowed}
use polyserve.Stages.{
  Strategy, Action, Spec, any_spec, only, pure, get, ◌>>=◌, ◌>>◌, trial_only, leader_of,
}
use polyserve.Stages.Delta.{Delta, delta, apply, put_extra, is_empty, same_delta}

-- The entries of a dictionary whose key is not `k`.
abbrev pub drop_key {ℓ} : {V : Type ℓ} → String → List (String × V) → List (String × V)
drop_key k m = keep_if (λ e. not (str_eq e.0 k)) m

-- `base.extra`'s entry for `k` put back, if it has one.
abbrev pub put_back : String → Option Value → List (String × Value) → List (String × Value)
put_back k none extra = extra
put_back k (some v) extra = put_extra k v extra

abbrev held_fixed : Spec → String → Bool
held_fixed any_spec dim = false
held_fixed (only s) dim = str_eq dim "spec"

unfoldable pub when {ℓ} : {A : Type ℓ} → Bool → A → List A
when test a = if test then a ∷ [] else []

unfoldable pub concat {ℓ} : {A : Type ℓ} → List (List A) → List A
concat [] = []
concat (xs ∷ xss) = xs ++ concat xss

-- `itertools.product`.
abbrev prepend_each {ℓ} : {A : Type ℓ} → List A → List (List A) → List (List A)
prepend_each [] rests = []
prepend_each (x ∷ xs) rests = map (λ r. x ∷ r) rests ++ prepend_each xs rests

abbrev pub product {ℓ} : {A : Type ℓ} → List (List A) → List (List A)
product [] = [] ∷ []
product (xs ∷ xss) = prepend_each xs (product xss)

module _ {W : Type 0} where
  abbrev pub undo_extra : Config W → Config W → String → Config W
  undo_extra base lead k = record lead {
    extra = put_back k (lookup k base.extra) (drop_key k lead.extra);
  }

  -- The leader with each change undone, one at a time, the batch also with the cache type.
  unfoldable pub undone : Config W → Config W → List (Config W)
  undone base lead =
      let d = delta base lead in
      concat (
        when (is_some d.batch) (record lead { batch = base.batch })
        ∷ when (is_some d.n_batch) (record lead { n_batch = base.n_batch })
        ∷ when (is_some d.prefill_budget) (record lead { prefill_budget = base.prefill_budget })
        ∷ when (is_some d.kv_dtype) (record lead { kv_dtype = base.kv_dtype })
        ∷ when (is_some d.prefix_cache) (record lead { prefix_cache = base.prefix_cache })
        ∷ when (is_some d.spec_decode) (record lead { spec_decode = base.spec_decode })
        ∷ map (λ e. undo_extra base lead e.0) d.extra
        ∷ when (is_some d.kv_dtype && is_some d.batch)
            (record lead { kv_dtype = base.kv_dtype; batch = base.batch })
        ∷ [])

module _ {W X : Type 0} ⦃f : Float W⦄ (st : Strategy W X) where
  -- The entry of the ranking for a key: the last of those with that key.
  abbrev scored_as : String → List (Ranked W) → Option (Ranked W)
  scored_as k [] = none
  scored_as k (x ∷ xs) = elim (scored_as k xs) [
    | some y ↦ some y
    | none ↦ if str_eq (key x.result.config) k then some x else none
  ]

  abbrev gain_between : Option (Ranked W) → Option (Ranked W) → Option W
  gain_between none b = none
  gain_between (some a) none = none
  gain_between (some a) (some b) =
      if b.feasible
      then some (
          if same a.score nought then nought else f.div (f.sub a.score b.score) (magnitude a.score))
      else none

  abbrev gain_of : Config W → Config W → Option (TrialResult W) → Option (TrialResult W) → Option W
  gain_of ref_cfg var_cfg none var = none
  gain_of ref_cfg var_cfg (some ref) none = none
  gain_of ref_cfg var_cfg (some ref) (some var) =
      if ok ref && ok var
      then (let ranked = rank (ref ∷ var ∷ []) st.objective st.constraints in
          gain_between (scored_as (key ref_cfg) ranked) (scored_as (key var_cfg) ranked))
      else none

  unfoldable pub relative_gain : Search W X → Config W → Config W → Option W
  relative_gain s ref_cfg var_cfg =
      gain_of ref_cfg var_cfg (lookup (key ref_cfg) s.done) (lookup (key var_cfg) s.done)

  -- The changes of one dimension, with their gains, in the order of the log.
  abbrev pub Choice : Type 0
  Choice = W × Delta

  unfoldable pub add_option :
      String → Choice → List (String × List Choice) → List (String × List Choice)
  add_option dim c [] = (dim, c ∷ []) ∷ []
  add_option dim c ((j, kept) ∷ options) =
      if str_eq j dim
      then (j, (if any (λ d. same_delta d.1 c.1) kept then kept else kept ++ c ∷ [])) ∷ options
      else (j, kept) ∷ add_option dim c options

  -- Whether a change of the log is promising.
  abbrev promising : Config W → Spec → String → Config W → Delta → Option W → Bool
  promising base spec dim ref d none = false
  promising base spec dim ref d (some gain) =
      str_eq ref.backend base.backend
      && (not (held_fixed spec dim)
          && (not (below gain (f.neg st.combine_band)) && not (is_empty d)))

  abbrev add_logged :
      Search W X
      → Config W
      → Spec
      → String × (Config W × Config W)
      → List (String × List Choice)
      → List (String × List Choice)
  add_logged s base spec (dim, (ref, var)) options =
      let gain = relative_gain s ref var in
      let d = delta ref var in
      if promising base spec dim ref d gain
      then add_option dim (get_or_default nought gain, d) options
      else options

  unfoldable pub options_from :
      Search W X
      → Config W
      → Spec
      → List (String × (Config W × Config W))
      → List (String × List Choice)
      → List (String × List Choice)
  options_from s base spec [] options = options
  options_from s base spec (l ∷ log) options =
      options_from s base spec log (add_logged s base spec l options)

  -- None of a dimension, or one of its best two.
  abbrev choices_of : List Choice → List (Option Choice)
  choices_of kept =
      none ∷ map (λ c. some c) (take 2 (sort (λ a b. below (f.neg a.0) (f.neg b.0)) kept))

  abbrev pub members : List (Option Choice) → List Choice
  members [] = []
  members (none ∷ combo) = members combo
  members (some c ∷ combo) = c ∷ members combo

  unfoldable pub apply_all : Config W → List Choice → Config W
  apply_all cfg [] = cfg
  apply_all cfg (c ∷ cs) = apply_all (apply cfg c.1) cs

  module _ (env : Env W X) (opts : Settings W) (fuel : ℕ) where
    abbrev pub worth_trying : Search W X → Config W → Bool
    worth_trying s cfg = not (is_some (lookup (key cfg) s.done)) && allowed opts.feasible_fn cfg

    abbrev pub candidate : Search W X → Config W → List Choice → List (W × Config W)
    candidate s base [] = []
    candidate s base (c ∷ cs) =
        let cfg = apply_all base (c ∷ cs) in
        if worth_trying s cfg then (f.sum (map (λ m. m.0) (c ∷ cs)), cfg) ∷ [] else []

    unfoldable pub candidates_of :
        Search W X → Config W → List (List (Option Choice)) → List (W × Config W)
    candidates_of s base [] = []
    candidates_of s base (combo ∷ combos) =
        candidate s base (members combo) ++ candidates_of s base combos

    -- `itertools.product(*choices) if choices else ()`.
    abbrev pub combos_of : List (String × List Choice) → List (List (Option Choice))
    combos_of [] = []
    combos_of (o ∷ options) = product (map (λ e. choices_of e.1) (o ∷ options))

    abbrev pub undone_from : Config W → Option (TrialResult W) → List (Config W)
    undone_from base none = []
    undone_from base (some lead) = undone base lead.config

    unfoldable pub leader_without_each : Config W → Spec → Action (Search W X) (List (Config W))
    leader_without_each base spec =
        leader_of env opts st fuel (some base.backend) spec >>= λ lead. pure (undone_from base lead)

    unfoldable pub to_combine : Search W X → Config W → Spec → List (Config W) → List (Config W)
    to_combine s base spec without_each =
        let combos = combos_of (options_from s base spec s.variant_log []) in
        keep_if (worth_trying s) without_each
        ++ map (λ c. c.1)
            (sort (λ a b. below (f.neg a.0) (f.neg b.0)) (candidates_of s base combos))

    -- Up to `limit` configurations of different keys.
    unfoldable pub try_distinct : ℕ → List String → List (Config W) → Action (Search W X) (Unit {0})
    try_distinct zero tried cfgs = pure tt
    try_distinct (suc limit) tried [] = pure tt
    try_distinct (suc limit) tried (c ∷ cs) =
        if any (λ k. str_eq k (key c)) tried
        then try_distinct (suc limit) tried cs
        else trial_only env opts st fuel "combine" c >> try_distinct limit (key c ∷ tried) cs

    unfoldable pub stage_combinations : Config W → Spec → Option ℕ → Action (Search W X) (Unit {0})
    stage_combinations base spec limit = leader_without_each base spec >>= λ without_each.
        get >>= λ s.
        try_distinct (get_or_default st.max_combinations limit) []
          (to_combine s base spec without_each)
