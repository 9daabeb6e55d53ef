-- ===== src/Models/Hardware.antt =====
-- polyserve/models.py, the hardware part. Times and texts that no operation reads are left out of
-- no record: `probed_at` is a number of seconds.
use polyserve.Base.{
  ℕ, String, Bool, true, false, Option, none, some, List, [], ◌∷◌, str_eq, if◌then◌else◌,
  get_or_default,
}

pub record GpuInfo : Type 0 where
  pub vendor : String
  pub name : String
  pub index : ℕ
  pub compute_capability : Option (ℕ × ℕ)
  pub vram_total_bytes : ℕ
  pub vram_free_bytes : ℕ
  pub driver_version : Option String
  pub cuda_version : Option String
  pub uuid : Option String

abbrev pub cc : GpuInfo → ℕ × ℕ
cc g = get_or_default (0, 0) g.compute_capability

pub record CpuInfo : Type 0 where
  pub model_name : String
  pub physical_cores : ℕ
  pub logical_cores : ℕ
  pub avx2 : Bool
  pub avx512 : Bool
  pub ram_total_bytes : ℕ
  pub ram_free_bytes : ℕ
  pub arch : String

pub record BackendAvailability : Type 0 where
  pub name : String
  pub available : Bool
  pub version : Option String
  pub reason : Option String

pub record HardwareDescriptor : Type 0 where
  pub os : String
  pub python : String
  pub gpus : List GpuInfo
  pub cpu : CpuInfo
  pub backends : List (String × BackendAvailability)
  pub probed_at : ℕ

-- `dict.get`.
abbrev pub lookup {ℓ} : {V : Type ℓ} → String → List (String × V) → Option V
lookup k [] = none
lookup k ((j, v) ∷ m) = if str_eq j k then some v else lookup k m

abbrev pub gpu : HardwareDescriptor → Option GpuInfo
gpu hw = elim hw.gpus [ [] ↦ none | g ∷ rest ↦ some g ]

abbrev pub has_gpu : HardwareDescriptor → Bool
has_gpu hw = elim hw.gpus [ [] ↦ false | g ∷ rest ↦ true ]

abbrev pub backend_available : HardwareDescriptor → String → Bool
backend_available hw name = elim (lookup name hw.backends) [ none ↦ false | some b ↦ b.available ]

abbrev pub backend_version : HardwareDescriptor → String → Option String
backend_version hw name = elim (lookup name hw.backends) [ none ↦ none | some b ↦ b.version ]

-- Free VRAM if a GPU exists, else free RAM.
abbrev pub available_memory_bytes : HardwareDescriptor → ℕ
available_memory_bytes hw = elim (gpu hw) [
  | none ↦ hw.cpu.ram_free_bytes
  | some g ↦ g.vram_free_bytes
]
