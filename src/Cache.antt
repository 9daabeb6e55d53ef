-- ===== src/Cache.antt =====
-- polyserve/cache.py: the profile cache, a directory of one file for each machine, model and request;
-- and polyserve/hardware.py: `hardware_hash`. The digest and the JSON encoding of a profile are
-- parameters. The fields of a profile that the cache does not read are one field, `rest`. The log does
-- not change the cache.
pub mod Files
pub mod Stored
pub mod Refines
mod Tests
use Prim.Native.Char.{code}
use polyserve.Base.{
  ℕ, suc, ◌+◌, ◌/◌, String, Bool, true, false, not, ◌&&◌, ◌||◌, Option, none, some, List, [], ◌∷◌,
  ◌++◌, map, str_eq, if◌then◌else◌, ◌==◌, ◌<>◌, show_ℕ, join, str_ltb, keep_if, length, is_some,
  is_text,
}
use polyserve.Base.Sort.{sort}
use polyserve.Models.{
  HardwareDescriptor, GpuInfo, CpuInfo, ModelSpec, cc, safe_id, backend_available, backend_version,
}

pub record Profile (P : Type 0) : Type 0 where
  pub hardware_hash : String
  pub model_id : String
  pub objective : String
  pub workload : String
  pub power_mode : String
  pub phases : String
  pub options : List (String × String)
  pub backend : String
  pub backend_version : Option String
  pub rest : P

-- `hexdigest()[:16]` of SHA-256, `model_dump_json` and `model_validate_json`; `none` when it raises.
pub record Codec (P : Type 0) : Type 0 where
  pub digest : String → String
  pub dump : Profile P → String
  pub parse : String → Option (Profile P)

abbrev digit_of : Bool → String
digit_of b = if b then "1" else "0"

abbrev gpu_part : GpuInfo → String
gpu_part g =
    "gpu:"
    <> g.vendor
    <> ":"
    <> g.name
    <> ":"
    <> show_ℕ (cc g).0
    <> "."
    <> show_ℕ (cc g).1
    <> ":"
    <> show_ℕ (g.vram_total_bytes / 268435456)

abbrev cpu_part : CpuInfo → String
cpu_part c =
    "cpu:"
    <> c.model_name
    <> ":"
    <> show_ℕ c.physical_cores
    <> ":"
    <> show_ℕ c.logical_cores
    <> ":"
    <> digit_of c.avx2
    <> digit_of c.avx512

unfoldable pub identity : HardwareDescriptor → String
unfolding join show_ℕ
identity hw = join "|" (
    map gpu_part hw.gpus
    ++ cpu_part hw.cpu
      ∷ ("ram:" <> show_ℕ (hw.cpu.ram_total_bytes / 1073741824))
      ∷ ("arch:" <> hw.cpu.arch)
      ∷ [])

abbrev pub hardware_hash : {P : Type 0} → Codec P → HardwareDescriptor → String
hardware_hash codec hw = codec.digest (identity hw)

-- The suffix of a file: `.json.tmp` while it is written.
pub data Suffix : Type 0 where
  json : Suffix
  json_tmp : Suffix

-- A file under `profiles_dir()`. Its name is `stem` and the suffix; no name ends in both suffixes.
pub record ProfilePath : Type 0 where
  pub hardware : String
  pub model : String
  pub stem : String
  pub suffix : Suffix

-- `s.replace("/", "_")`.
unfoldable pub flat_text : String → String
flat_text String.[] = ""
flat_text (String.◌∷◌ c s) =
    if code c == b'/' then "_" <> flat_text s else String.◌∷◌ c (flat_text s)

-- What a profile is asked for by, next to the machine and the model.
pub record Request : Type 0 where
  pub objective : String
  pub workload : String
  pub power : String
  pub phases : String
  pub options : List (String × String)

abbrev pub option_texts : List (String × String) → String
option_texts [] = ""
option_texts ((k, v) ∷ es) = "-" <> k <> "-" <> flat_text v <> option_texts es

unfoldable pub stem_of : Request → String
unfolding flat_text
stem_of r =
    (if str_eq r.workload "default" then r.objective else r.objective <> "-" <> r.workload)
    <> (if str_eq r.power "off" then "" else "-power-" <> r.power)
    <> (if str_eq r.phases "unified" then "" else "-phases-" <> r.phases)
    <> option_texts (sort (λ a b. str_ltb a.0 b.0) r.options)

abbrev pub profile_path : String → ModelSpec → Request → ProfilePath
profile_path hash model r = record {
  hardware = hash;
  model = safe_id model;
  stem = stem_of r;
  suffix = json;
}

abbrev pub same_suffix : Suffix → Suffix → Bool
same_suffix json json = true
same_suffix json_tmp json_tmp = true
same_suffix _ _ = false

abbrev pub same_path : ProfilePath → ProfilePath → Bool
same_path a b =
    str_eq a.hardware b.hardware
    && (str_eq a.model b.model && (str_eq a.stem b.stem && same_suffix a.suffix b.suffix))

-- The files, each with its text.
abbrev pub Files : Type 0
Files = List (ProfilePath × String)

unfoldable pub read : ProfilePath → Files → Option String
read p [] = none
read p ((q, text) ∷ files) = if same_path q p then some text else read p files

abbrev pub remove : ProfilePath → Files → Files
remove p files = keep_if (λ e. not (same_path e.0 p)) files

abbrev pub write : ProfilePath → String → Files → Files
write p text files = (p, text) ∷ remove p files

-- `os.replace(source, target)`; `none` is its FileNotFoundError.
unfoldable pub replace : ProfilePath → ProfilePath → Files → Option Files
replace source target files = elim (read source files) [
  | none ↦ none
  | some text ↦ some (write target text (remove source files))
]

abbrev version_text : Option String → String
version_text none = "None"
version_text (some v) = v

abbrev pub same_version : Option String → Option String → Bool
same_version none none = true
same_version (some a) (some b) = str_eq a b
same_version _ _ = false

module _ {P : Type 0} (codec : Codec P) where
  abbrev pub request_of : Profile P → Request
  request_of p = record {
    objective = p.objective;
    workload = p.workload;
    power = p.power_mode;
    phases = p.phases;
    options = p.options;
  }

  abbrev pub path_of : Profile P → ProfilePath
  path_of p =
      profile_path p.hardware_hash (record { hf_id = p.model_id; revision = none }) (request_of p)

  abbrev pub tmp_of : Profile P → ProfilePath
  tmp_of p = record (path_of p) { suffix = json_tmp }

  -- The two steps of `save`: the text goes to a file of its own, which then takes the profile's place.
  abbrev pub save_text : Profile P → Files → Files
  save_text p files = write (tmp_of p) (codec.dump p) files

  unfoldable pub save : Profile P → Files → Option Files
  save p files = replace (tmp_of p) (path_of p) (save_text p files)

  unfoldable pub invalid_reason : Profile P → HardwareDescriptor → Option String
  invalid_reason p hw =
      if not (str_eq p.hardware_hash (hardware_hash codec hw))
      then some "hardware changed"
      else if not (same_version p.backend_version (backend_version hw p.backend))
      then some (
          p.backend
          <> " version changed ("
          <> version_text p.backend_version
          <> " -> "
          <> version_text (backend_version hw p.backend)
          <> ")")
      else if not (backend_available hw p.backend)
      then some (p.backend <> " no longer available")
      else none

  abbrev pub checked : HardwareDescriptor → Option (Profile P) → Option (Profile P)
  checked hw none = none
  checked hw (some p) = elim (invalid_reason p hw) [ none ↦ some p | some why ↦ none ]

  abbrev pub parsed : Option String → Option (Profile P)
  parsed none = none
  parsed (some text) = codec.parse text

  unfoldable pub load : HardwareDescriptor → ModelSpec → Request → Files → Option (Profile P)
  load hw model r files =
      checked hw (parsed (read (profile_path (hardware_hash codec hw) model r) files))

  abbrev pub in_directory : HardwareDescriptor → ModelSpec → ProfilePath → Bool
  in_directory hw model p =
      str_eq p.hardware (hardware_hash codec hw)
      && (str_eq p.model (safe_id model) && same_suffix p.suffix json)

  -- The request that `delete` makes of an objective and a workload.
  abbrev pub plain_request : String → String → Request
  plain_request objective workload = record {
    objective = objective;
    workload = workload;
    power = "off";
    phases = "unified";
    options = [];
  }

  -- The branch of `delete` without an objective: every profile of the model on this machine, and their
  -- number.
  unfoldable pub delete_all : HardwareDescriptor → ModelSpec → Files → ℕ × Files
  delete_all hw model files = (
    length (keep_if (λ e. in_directory hw model e.0) files),
    keep_if (λ e. not (in_directory hw model e.0)) files,
  )

  -- The branch of `delete` with an objective.
  unfoldable pub delete_one : HardwareDescriptor → ModelSpec → String → String → Files → ℕ × Files
  delete_one hw model objective workload files =
      let p = profile_path (hardware_hash codec hw) model (plain_request objective workload) in
      if is_some (read p files) then (1, remove p files) else (0, files)

  -- `delete`. An objective that is the empty text counts as none.
  unfoldable pub delete :
      HardwareDescriptor → ModelSpec → Option String → String → Files → ℕ × Files
  unfolding delete_one delete_all
  delete hw model none workload files = delete_all hw model files
  delete hw model (some objective) workload files =
      if is_text objective
      then delete_one hw model objective workload files
      else delete_all hw model files
