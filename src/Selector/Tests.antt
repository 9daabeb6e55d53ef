-- ===== src/Selector/Tests.antt =====
-- A machine with a card on which only the CPU engine is installed, and the theorem applied to it.
use polyserve.Base.{String, ◌≡◌, false, true, none, some, List, [], ◌∷◌, ◌⊎◌}
use polyserve.Models.{HardwareDescriptor, ModelSpec}
use polyserve.Models.Samples.{machine}
use polyserve.Selector.{Supports, select_backends}
use polyserve.Selector.Usable.{AreUsable, IsUsable, is_idle, select_backends-AreUsable}

abbrev installed : HardwareDescriptor
installed = record machine {
  backends =
      (
        "llamacpp-cpu",
        record { name = "llamacpp-cpu"; available = true; version = some "b5000"; reason = none },
      )
      ∷ [];
}

abbrev spec : ModelSpec
spec = record { hf_id = "Qwen/Qwen2.5-1.5B-Instruct"; revision = none }

abbrev engines : List (String × Supports)
engines = ("vllm", λ hw m. none) ∷ ("llamacpp-cpu", λ hw m. some true) ∷ []

select_backends-AreUsable_example :
    (names : List String) × (select_backends installed spec engines none ≡ some names)
    × AreUsable installed spec engines names
    × ((is_idle names ≡ false) ⊎ (¬ IsUsable installed spec engines "llamacpp-cpu"))
select_backends-AreUsable_example = select_backends-AreUsable installed spec engines
