-- ===== src/Power.antt =====
-- polyserve/power.py: the power cap and the clock lock of one GPU, and the file that remembers the
-- cap to go back to. NVML is a parameter: an operation of `Nvml` is one call through
-- `NvmlPowerController._call`, which loads the library where needed and turns every exception into
-- PowerControlUnavailable. `D` is the device's state. The hooks that `_install_hooks` registers are
-- calls of `restore`. A lock serializes the operations, so each is one step. Writing and removing the
-- restore file succeeds.
pub mod Settings
pub mod Original
pub mod Record
pub mod Points
mod Tests
use polyserve.Base.{
  ℕ, suc, ◌+◌, ◌*◌, ◌<◌, ◌≡◌, min, Bool, true, false, not, ◌&&◌, ◌||◌, Option, none, some, List, [],
  ◌∷◌, ◌==◌, ltb, if◌then◌else◌, is_some,
}
use polyserve.Power.Settings.{PowerSetting, is_default}

pub record Nvml (D : Type 0) : Type 0 where
  -- nvmlDeviceGetPowerManagementLimit, in milliwatts; `none` when the call raises.
  pub get_limit : D → Option ℕ
  -- nvmlDeviceSetPowerManagementLimit: whether it succeeded, and the device after it.
  pub set_limit : ℕ → D → Bool × D
  -- nvmlDeviceSetGpuLockedClocks and nvmlDeviceResetGpuLockedClocks.
  pub lock_clocks : (lowest highest : ℕ) → D → Bool × D
  pub reset_clocks : D → Bool × D
  -- nvmlDeviceGetSupportedMemoryClocks and nvmlDeviceGetSupportedGraphicsClocks.
  pub memory_clocks : D → Option (List ℕ)
  pub graphics_clocks : ℕ → D → Option (List ℕ)

-- What NVML documents of a device whose power limit is `limit`.
pub record IsNvml {D : Type 0} (nvml : Nvml D) (limit : D → ℕ) : Type 0 where
  pub reads : (d : D) (n : ℕ) → nvml.get_limit d ≡ some n → limit d ≡ n
  pub sets : (n : ℕ) (d : D) → (nvml.set_limit n d).0 ≡ true → limit (nvml.set_limit n d).1 ≡ n
  pub refuses :
      (n : ℕ) (d : D) → (nvml.set_limit n d).0 ≡ false → limit (nvml.set_limit n d).1 ≡ limit d
  pub locks : (a b : ℕ) (d : D) → limit (nvml.lock_clocks a b d).1 ≡ limit d
  pub resets : (d : D) → limit (nvml.reset_clocks d).1 ≡ limit d

-- The restore file: missing, not JSON, or an object with the two entries, if they are there.
pub data RestoreFile : Type 0 where
  missing unreadable : RestoreFile
  saved : (gpu_index power_limit_mw : Option ℕ) → RestoreFile

-- `pending_restore() is not None`.
abbrev pub is_pending : RestoreFile → Bool
is_pending (saved g w) = true
is_pending _ = false

-- The limit that the file holds for a GPU: `existing and …`, where a limit of 0 counts as none.
abbrev pub limit_for : ℕ → RestoreFile → Option ℕ
limit_for index (saved (some g) (some w)) = if g == index && not (w == 0) then some w else none
limit_for index _ = none

-- The controller, the device and the file.
pub record Power (D : Type 0) : Type 0 where
  pub device : D
  pub file : RestoreFile
  pub original_limit_mw : Option ℕ
  pub clocks_locked : Bool
  pub applied : Option PowerSetting
  pub hooks_installed : Bool

abbrev pub fresh : {D : Type 0} → D → RestoreFile → Power D
fresh d file = record {
  device = d;
  file = file;
  original_limit_mw = none;
  clocks_locked = false;
  applied = none;
  hooks_installed = false;
}

-- A method's end: it returns, or it raises; either way with what it has changed.
pub data Outcome (S : Type 0) : Type 0 where
  returned : S → Outcome S
  raised : S → Outcome S

abbrev pub state_of : {S : Type 0} → Outcome S → S
state_of (returned s) = s
state_of (raised s) = s

infixl 40 ◌and_then◌
abbrev pub ◌and_then◌ : {S : Type 0} → Outcome S → (S → Outcome S) → Outcome S
returned s and_then next = next s
raised s and_then next = raised s

module _ {D : Type 0} where
  -- A call that raises when it does not succeed, and one whose exception is caught.
  abbrev pub call : (D → Bool × D) → Power D → Outcome (Power D)
  call f p =
      let r = f p.device in
      let q = record p { device = r.1 } in if r.0 then returned q else raised q

  -- Whether there is something to restore.
  abbrev pub is_changed : Power D → Bool
  is_changed p = is_some p.applied || (p.clocks_locked || is_pending p.file)

  unfoldable pub install_hooks : Power D → Outcome (Power D)
  install_hooks p = returned (record p { hooks_installed = true })

-- Whether the setting that is applied, if any, caps the power or locks the clock.
abbrev pub caps : Option PowerSetting → Bool
caps none = false
caps (some s) = is_some s.power_limit_w

abbrev pub clocks : Option PowerSetting → Bool
clocks none = false
clocks (some s) = is_some s.sm_clock_mhz

-- `max(xs)` and `min(xs)` of a list that is not empty.
abbrev pub highest : ℕ → List ℕ → ℕ
highest m [] = m
highest m (x ∷ xs) = highest (if ltb m x then x else m) xs

abbrev pub lowest : ℕ → List ℕ → ℕ
lowest m [] = m
lowest m (x ∷ xs) = lowest (if ltb x m then x else m) xs

module _ {D : Type 0} (nvml : Nvml D) where
  unfoldable pub min_clock : D → ℕ
  min_clock d = elim (nvml.memory_clocks d) [
    | none ↦ 0
    | some [] ↦ 0
    | some (m ∷ ms) ↦ elim (nvml.graphics_clocks (highest m ms) d) [
      | none ↦ 0
      | some [] ↦ 0
      | some (c ∷ cs) ↦ lowest c cs
    ]
  ]

  unfoldable pub set_cap : PowerSetting → Power D → Outcome (Power D)
  set_cap s p = elim s.power_limit_w [
    | some w ↦ call (nvml.set_limit (w * 1000)) p
    | none ↦ elim p.original_limit_mw [
      | none ↦ returned p
      | some w ↦ if caps p.applied then call (nvml.set_limit w) p else returned p
    ]
  ]

  unfoldable pub set_clock : PowerSetting → Power D → Outcome (Power D)
  set_clock s p = elim s.sm_clock_mhz [
    | some mhz ↦
        call (nvml.lock_clocks (min (min_clock p.device) mhz) mhz) p
        and_then (λ q. returned (record q { clocks_locked = true }))
    | none ↦
        if p.clocks_locked
        then call nvml.reset_clocks p and_then (λ q. returned (record q { clocks_locked = false }))
        else returned p
  ]

  -- The two attempts of `_restore_locked`, each with whether it went without an error.
  unfoldable pub restore_limit : Power D → Bool × D
  restore_limit p = elim p.original_limit_mw [
    | none ↦ (true, p.device)
    | some w ↦ nvml.set_limit w p.device
  ]

  unfoldable pub restore_clocks : Power D → D → Bool × D
  restore_clocks p d =
      if p.clocks_locked || clocks p.applied then nvml.reset_clocks d else (true, d)

  -- Whether both attempts go without an error.
  abbrev pub restores_all : Power D → Bool
  restores_all p = (restore_limit p).0 && (restore_clocks p (restore_limit p).1).0

  unfoldable pub restore : Power D → Power D
  restore p =
      if not (is_some p.applied) && (not p.clocks_locked && not (is_pending p.file))
      then p
      else (let limit = restore_limit p in
          let clock = restore_clocks p limit.1 in
          record p {
            device = clock.1;
            clocks_locked = false;
            applied = none;
            file = if limit.0 && clock.0 then missing else p.file;
          })

-- What a caller does with a controller: a call of `apply` that raises leaves what it has changed.
pub data Command : Type 0 where
  applies : PowerSetting → Command
  restores : Command

module _ {D : Type 0} (nvml : Nvml D) (index : ℕ) where
  unfoldable pub remember_original : Power D → Outcome (Power D)
  remember_original p = elim p.original_limit_mw [
    | some w ↦ returned p
    | none ↦ elim (limit_for index p.file) [
      | some w ↦ returned (record p { original_limit_mw = some w })
      | none ↦ elim (nvml.get_limit p.device) [
        | none ↦ raised p
        | some cur ↦
            returned
              (record p { original_limit_mw = some cur; file = saved (some index) (some cur) })
      ]
    ]
  ]

  unfoldable pub apply : PowerSetting → Power D → Outcome (Power D)
  apply s p =
      if is_default s
      then returned (restore nvml p)
      else remember_original p
        and_then install_hooks
        and_then set_cap nvml s
        and_then set_clock nvml s
        and_then (λ q. returned (record q { applied = some s }))

  unfoldable pub perform : Command → Power D → Power D
  perform (applies s) p = state_of (apply s p)
  perform restores p = restore nvml p

  unfoldable pub perform_all : List Command → Power D → Power D
  perform_all [] p = p
  perform_all (c ∷ cs) p = perform_all cs (perform c p)
