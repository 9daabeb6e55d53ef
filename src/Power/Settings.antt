-- ===== src/Power/Settings.antt =====
-- polyserve/power.py: a power setting, and a configuration with one.
use polyserve.Base.{
  ℕ, String, Bool, not, ◌&&◌, Option, none, some, List, [], ◌∷◌, ◌++◌, ◌<>◌, show_ℕ, join,
  if◌then◌else◌, is_some, ◌≡◌, refl,
}
use polyserve.Float.{Float}
use polyserve.Models.{Config, key, base_key}

pub record PowerSetting : Type 0 where
  pub power_limit_w : Option ℕ
  pub sm_clock_mhz : Option ℕ

abbrev pub default_setting : PowerSetting
default_setting = record { power_limit_w = none; sm_clock_mhz = none }

abbrev pub is_default : PowerSetting → Bool
is_default s = not (is_some s.power_limit_w) && not (is_some s.sm_clock_mhz)

abbrev cap_part : Option ℕ → List String
cap_part none = []
cap_part (some w) = ("cap " <> show_ℕ w <> " W") ∷ []

abbrev clock_part : Option ℕ → List String
clock_part none = []
clock_part (some mhz) = ("clock <= " <> show_ℕ mhz <> " MHz") ∷ []

unfoldable pub label : PowerSetting → String
unfolding show_ℕ join
label s =
    if is_default s
    then "default"
    else join ", " (cap_part s.power_limit_w ++ clock_part s.sm_clock_mhz)

module _ {W : Type 0} where
  abbrev pub setting_of : Config W → PowerSetting
  setting_of cfg = record { power_limit_w = cfg.power_limit_w; sm_clock_mhz = cfg.sm_clock_mhz }

  abbrev pub with_power : Config W → PowerSetting → Config W
  with_power cfg s = record cfg { power_limit_w = s.power_limit_w; sm_clock_mhz = s.sm_clock_mhz }

module _ {W : Type 0} ⦃f : Float W⦄ where
  -- A configuration under a power setting carries that setting, and groups with the configuration
  -- that it was made from: under the default setting its key is the group's.
  with_power-base_key :
      (cfg : Config W) (s : PowerSetting)
      → (setting_of (with_power cfg s) ≡ s)
        × ((base_key (with_power cfg s) ≡ base_key cfg)
            × (key (with_power cfg default_setting) ≡ base_key cfg))
  unfolding base_key
  with_power-base_key cfg s = (refl, (refl, refl))
