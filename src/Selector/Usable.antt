-- ===== src/Selector/Usable.antt =====
-- About `select_backends` of polyserve/selector.py.
use polyserve.Base.{
  String, ◌≡◌, refl, inl, inr, Bool, true, false, ◌&&◌, Option, none, some, List, [], ◌∷◌, ◌++◌,
  All, All-append, Bool-cases, Option-cases, if◌then◌else◌, str_eq, ◌⊎◌, arith,
}
use polyserve.Models.{HardwareDescriptor, GpuInfo, ModelSpec, gpu, backend_available, lookup}
use polyserve.Selector.{
  Supports, supported, is_modern, usable, if_usable, gpu_candidates, or_cpu, candidates_for,
  select_backends,
}

abbrev pub is_idle : List String → Bool
is_idle [] = true
is_idle (n ∷ names) = false

module _ (hw : HardwareDescriptor) (model : ModelSpec) (registry : List (String × Supports)) where
  -- The engine is known, installed on the machine, and says that it supports the model.
  pub record IsUsable (name : String) : Type 0 where
    pub supports : Supports
    pub known : lookup name registry ≡ some supports
    pub available : backend_available hw name ≡ true
    pub supported : supports hw model ≡ some true

  abbrev pub AreUsable : List String → Type 0
  AreUsable names = All IsUsable names

  usable-IsUsable : (name : String) → usable hw model registry name ≡ true → IsUsable name
  unfolding usable
  usable-IsUsable name e = elim (Option-cases (lookup name registry)) [
    | inl none_there ↦ cc (rw (none_there, usable) at e)
    | inr (s, found) ↦
        let h : (backend_available hw name && supported (s hw model)) ≡ true =
          rw (found, usable) at e in
        elim (Option-cases (s hw model)) [
          | inl raises ↦ absurd (ground (arith, h, raises))
          | inr (b, says) ↦ record {
            supports = s;
            known = found;
            available = ground (arith, h);
            supported = ground (arith, h, says);
          }
        ]
  ]

  IsUsable-usable : (name : String) → IsUsable name → usable hw model registry name ≡ true
  unfolding usable
  IsUsable-usable name u = rw (u.known, usable) (rw u.available (rw u.supported refl))

  if_usable-AreUsable : (name : String) → AreUsable (if_usable hw model registry name)
  if_usable-AreUsable name = elim (Bool-cases (usable hw model registry name)) [
    | inl e ↦ rw e (usable-IsUsable name e, tt)
    | inr e ↦ rw e tt
  ]

  if_AreUsable :
      (b : Bool) (names : List String) → AreUsable names → AreUsable (if b then names else [])
  if_AreUsable true names h = h
  if_AreUsable false names h = tt

  or_cpu-AreUsable :
      (names : List String) → AreUsable names → AreUsable (or_cpu hw model registry names)
  or_cpu-AreUsable [] h = if_usable-AreUsable "llamacpp-cpu"
  or_cpu-AreUsable (n ∷ names) h = h

  candidates_for-AreUsable : (g : Option GpuInfo) → AreUsable (candidates_for hw model registry g)
  candidates_for-AreUsable none =
      All-append _ (if_usable hw model registry "llamacpp-cpu") _
        (if_usable-AreUsable "llamacpp-cpu")
        (if_AreUsable hw.cpu.avx512 (if_usable hw model registry "vllm-cpu")
          (if_usable-AreUsable "vllm-cpu"))
  candidates_for-AreUsable (some g) = or_cpu-AreUsable (gpu_candidates hw model registry g) (
      if_AreUsable (str_eq g.vendor "nvidia") _ (
        All-append _
          (if is_modern g
            then if_usable hw model registry "vllm" ++ if_usable hw model registry "sglang"
            else [])
          _
          (if_AreUsable (is_modern g) _ (
            All-append _ (if_usable hw model registry "vllm") _ (if_usable-AreUsable "vllm")
              (if_usable-AreUsable "sglang")))
          (if_usable-AreUsable "llamacpp-cuda")))

  or_cpu-served :
      (names : List String)
      → usable hw model registry "llamacpp-cpu" ≡ true
      → is_idle (or_cpu hw model registry names) ≡ false
  or_cpu-served [] e = rw e refl
  or_cpu-served (n ∷ names) e = refl

  cpu_first :
      (b : Bool) (names : List String)
      → b ≡ true
      → is_idle ((if b then "llamacpp-cpu" ∷ [] else []) ++ names) ≡ false
  cpu_first true names e = refl
  cpu_first false names e = cc

  not_idle :
      (g : Option GpuInfo)
      → usable hw model registry "llamacpp-cpu" ≡ true
      → is_idle (candidates_for hw model registry g) ≡ false
  not_idle none e = cpu_first _ _ e
  not_idle (some g) e = or_cpu-served (gpu_candidates hw model registry g) e

  served :
      (g : Option GpuInfo)
      → (is_idle (candidates_for hw model registry g) ≡ false) ⊎ (¬ IsUsable "llamacpp-cpu")
  served g = elim (Bool-cases (usable hw model registry "llamacpp-cpu")) [
    | inl e ↦ inl (not_idle g e)
    | inr e ↦ inr (λ u. let h = IsUsable-usable "llamacpp-cpu" u in cc)
  ]

  -- Without an engine asked for by name, the selection raises nothing; every engine that it lists is
  -- known, available on the machine and says that it supports the model; and it lists an engine, unless
  -- the plain CPU engine is not known, not available or does not support the model.
  pub select_backends-AreUsable :
      (names : List String) × (select_backends hw model registry none ≡ some names)
      × AreUsable names
      × ((is_idle names ≡ false) ⊎ (¬ IsUsable "llamacpp-cpu"))
  unfolding select_backends
  select_backends-AreUsable = (
    candidates_for hw model registry (gpu hw),
    refl,
    candidates_for-AreUsable (gpu hw),
    served (gpu hw),
  )
