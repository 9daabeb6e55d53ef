-- ===== src/Backends/Registry.antt =====
-- polyserve/backends/__init__.py: the engines that are known, by name.
use polyserve.Base.{String, List, [], ◌∷◌, Option}
use polyserve.Float.{Float}
use polyserve.Models.{lookup}
use polyserve.Backends.{Backend, Installed, Fitted}
use polyserve.Backends.Vllm.{vllm, vllm_cpu}
use polyserve.Backends.Sglang.{sglang}
use polyserve.Backends.LlamaCpp.{llamacpp_cuda, llamacpp_cpu}

module _ {W : Type 0} ⦃f : Float W⦄ (i : Installed) (fitted : Fitted W) where
  unfoldable pub registry : List (String × Backend W)
  unfolding vllm sglang llamacpp_cuda llamacpp_cpu vllm_cpu
  registry =
      ("vllm", vllm i fitted)
      ∷ ("sglang", sglang fitted)
      ∷ ("llamacpp-cuda", llamacpp_cuda i fitted)
      ∷ ("llamacpp-cpu", llamacpp_cpu i fitted)
      ∷ ("vllm-cpu", vllm_cpu i fitted)
      ∷ []

  -- `none` is the KeyError of a name that is not known.
  abbrev pub get_backend : String → Option (Backend W)
  get_backend name = lookup name registry
