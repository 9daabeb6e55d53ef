-- ===== src/Pipeline/Resolve.antt =====
-- polyserve/pipeline.py: `resolve_profile` without `skip_calibration`, and `_resolve_phased`: a profile
-- from the cache, or a new one. `check_support` is that of polyserve/disagg.py. What selecting,
-- planning and calibrating end with is a parameter: the engine and the rest of the profile, or `none`
-- where they raise; so is what `calibrate_disaggregated` makes of a unified profile.
use polyserve.Base.{
  String, Bool, true, false, not, ◌&&◌, ◌||◌, Option, none, some, if◌then◌else◌, str_eq, ltb,
  is_some, is_text, keep_if, length, ◌<>◌, show_ℕ,
}
use polyserve.Float.{Float}
use polyserve.Models.{HardwareDescriptor, ModelSpec, backend_available, backend_version}
use polyserve.Cache.{Profile, Codec, Request, Files, hardware_hash, load, save}
use polyserve.Pipeline.{SearchOptions, options_key, allows}

-- A profile, whether the cache had it, and the files of the cache afterwards.
pub record Resolved (P : Type 0) : Type 0 where
  pub profile : Profile P
  pub hit : Bool
  pub files : Files

-- What is asked for.
pub record Query (W : Type 0) : Type 0 where
  pub hw : HardwareDescriptor
  pub spec : ModelSpec
  pub objective : String
  pub workload : String
  pub power : String
  pub force : Option String
  pub options : SearchOptions W

abbrev pub matches : Option String → String → Bool
matches none backend = true
matches (some name) backend = str_eq backend name

-- `name or default`.
abbrev or_text : Option String → Option String → Option String
or_text none d = d
or_text (some name) d = if is_text name then some name else d

-- `check_support`, without a configuration of its own for the connector: the reason why split serving
-- cannot run. `nixl` says whether the package of the only connector is there.
unfoldable pub check_support :
    (nixl : Bool) (hw : HardwareDescriptor) (backend connector : String) → Option String
check_support nixl hw backend connector =
    let n = length (keep_if (λ g. str_eq g.vendor "nvidia") hw.gpus) in
    if not (str_eq backend "vllm")
    then some ("disaggregated serving needs vLLM, but the calibrated backend is " <> backend)
    else if ltb n 2
    then some ("disaggregated serving needs two NVIDIA GPUs; " <> show_ℕ n <> " visible")
    else if not (str_eq connector "nixl")
    then some ("unknown KV connector '" <> connector <> "'; known: nixl")
    else if not nixl
    then some "the nixl KV connector needs the `nixl` package (pip install nixl)"
    else none

module _ {P : Type 0} (codec : Codec P) where
  -- `profile_cache.save(profile)`, and the profile.
  abbrev pub saved_new : Profile P → Files → Option (Resolved P)
  saved_new p files = elim (save codec p files) [
    | none ↦ none
    | some t ↦ some (record { profile = p; hit = false; files = t })
  ]

module _ {W P : Type 0} ⦃f : Float W⦄ (codec : Codec P) (quant_of : P → String) where
  -- `_usable` of a profile that is there.
  abbrev pub usable : SearchOptions W → Option String → Profile P → Bool
  usable o force p = matches force p.backend && allows o (quant_of p.rest)

  abbrev pub if_usable : SearchOptions W → Option String → Option (Profile P) → Option (Profile P)
  if_usable o force none = none
  if_usable o force (some p) = if usable o force p then some p else none

  abbrev pub unified_request : Query W → Request
  unified_request q = record {
    objective = q.objective;
    workload = q.workload;
    power = q.power;
    phases = "unified";
    options = options_key q.options (some q.objective);
  }

  -- The profile that `calibrate` returns.
  abbrev pub new_profile : Query W → String × P → Profile P
  new_profile q (engine, rest) = record {
    hardware_hash = hardware_hash codec q.hw;
    model_id = q.spec.hf_id;
    objective = q.objective;
    workload = q.workload;
    power_mode = q.power;
    phases = "unified";
    options = options_key q.options (some q.objective);
    backend = engine;
    backend_version = backend_version q.hw engine;
    rest = rest;
  }

  abbrev pub calibrated : Query W → Option (String × P) → Files → Option (Resolved P)
  calibrated q none files = none
  calibrated q (some outcome) files = saved_new codec (new_profile q outcome) files

  abbrev pub or_calibrated :
      Query W → Option (String × P) → Files → Option (Profile P) → Option (Resolved P)
  or_calibrated q outcome files (some p) = some (record { profile = p; hit = true; files = files })
  or_calibrated q outcome files none = calibrated q outcome files

  unfoldable pub resolve : Query W → Bool → Option (String × P) → Files → Option (Resolved P)
  resolve q recalibrate outcome files = or_calibrated q outcome files (
      if recalibrate
      then none
      else if_usable q.options q.force (load codec q.hw q.spec (unified_request q) files))

  -- What `_resolve_phased` looks for: the options without the objective.
  abbrev pub phased_request : Query W → String → Request
  phased_request q phases = record (unified_request q) {
    phases = phases;
    options = options_key q.options none;
  }

  -- What `calibrate_disaggregated` changes of the unified profile.
  abbrev pub phased_profile : Query W → String → Profile P → P → Profile P
  phased_profile q phases base rest = record base {
    phases = phases;
    power_mode = q.power;
    rest = rest;
  }

  -- Split serving runs on vLLM; `auto` chooses freely, and measures with the power settings.
  abbrev pub base_query : Query W → String → Query W
  base_query q phases = record q {
    force = or_text q.force (if str_eq phases "disaggregated" then some "vllm" else none);
    power = if str_eq phases "auto" then q.power else "off";
  }

  module _ (support : Option String) (split : Profile P → Option P) where
    abbrev pub split_from : Query W → String → Option (Resolved P) → Option (Resolved P)
    split_from q phases none = none
    split_from q phases (some base) = elim (split base.profile) [
      | none ↦ none
      | some rest ↦ saved_new codec (phased_profile q phases base.profile rest) base.files
    ]

    abbrev pub or_split :
        Query W
        → String
        → Bool
        → Option (String × P)
        → Files
        → Option (Profile P)
        → Option (Resolved P)
    or_split q phases recalibrate outcome files (some p) =
        some (record { profile = p; hit = true; files = files })
    or_split q phases recalibrate outcome files none =
        if str_eq phases "disaggregated" && (is_some support || not (backend_available q.hw "vllm"))
        then none
        else split_from q phases (resolve (base_query q phases) recalibrate outcome files)

    -- `_resolve_phased`; `support` is `check_support(hw, "vllm", kv_connector)`.
    unfoldable pub resolve_phased :
        Query W → String → Bool → Option (String × P) → Files → Option (Resolved P)
    unfolding resolve
    resolve_phased q phases recalibrate outcome files =
        or_split q phases recalibrate outcome files (
          if recalibrate
          then none
          else if_usable q.options q.force (load codec q.hw q.spec (phased_request q phases) files))
