-- ===== src/Selector.antt =====
-- polyserve/selector.py: `select_backends`, which engines a machine can run, in order of preference.
-- `registry` has, for each engine that is known, its `supports(hw, model)`; `none` is that it raises.
pub mod Usable
mod Tests
use polyserve.Base.{
  ℕ, String, Bool, true, false, not, ◌&&◌, ◌||◌, Option, none, some, List, [], ◌∷◌, ◌++◌,
  if◌then◌else◌, str_eq, ltb, leb, ◌==◌, is_some, is_text, any,
}
use polyserve.Models.{HardwareDescriptor, GpuInfo, ModelSpec, cc, gpu, backend_available, lookup}

abbrev pub Supports : Type 0
Supports = HardwareDescriptor → ModelSpec → Option Bool

-- `gpu.cc >= MIN_CC_MODERN`, a comparison of pairs.
abbrev pub is_modern : GpuInfo → Bool
is_modern g = ltb 7 (cc g).0 || ((cc g).0 == 7 && leb 5 (cc g).1)

abbrev pub supported : Option Bool → Bool
supported none = false
supported (some b) = b

module _ (hw : HardwareDescriptor) (model : ModelSpec) (registry : List (String × Supports)) where
  -- `ok(name)`.
  unfoldable pub usable : String → Bool
  usable name = elim (lookup name registry) [
    | none ↦ false
    | some supports ↦ backend_available hw name && supported (supports hw model)
  ]

  abbrev pub if_usable : String → List String
  if_usable name = if usable name then name ∷ [] else []

  abbrev pub gpu_candidates : GpuInfo → List String
  gpu_candidates g =
      if str_eq g.vendor "nvidia"
      then (if is_modern g then if_usable "vllm" ++ if_usable "sglang" else [])
        ++ if_usable "llamacpp-cuda"
      else []

  abbrev cpu_candidates : List String
  cpu_candidates = if_usable "llamacpp-cpu" ++ (if hw.cpu.avx512 then if_usable "vllm-cpu" else [])

  -- A card that no engine can use: the CPU, so that something is served.
  abbrev pub or_cpu : List String → List String
  or_cpu [] = if_usable "llamacpp-cpu"
  or_cpu (name ∷ names) = name ∷ names

  abbrev pub candidates_for : Option GpuInfo → List String
  candidates_for none = cpu_candidates
  candidates_for (some g) = or_cpu (gpu_candidates g)

  -- An engine that is asked for by name is the only one; `none` is the ValueError of an unknown name.
  abbrev pub forced : Option String → Option (List String)
  forced none = some (candidates_for (gpu hw))
  forced (some name) =
      if is_text name
      then (if is_some (lookup name registry) then some (name ∷ []) else none)
      else some (candidates_for (gpu hw))

  unfoldable pub select_backends : Option String → Option (List String)
  select_backends force = forced force
