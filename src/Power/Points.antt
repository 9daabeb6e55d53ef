-- ===== src/Power/Points.antt =====
-- polyserve/power.py, `candidate_points`: the settings that the power stage measures.
pub mod Valid
use polyserve.Base.{
  ℕ, zero, suc, ◌*◌, ◌<◌, ◌≡◌, ◌≢◌, refl, ap, inl, inr, String, str_eq, Bool, true, false, not,
  ◌&&◌, ◌||◌, Option, none, some, List, [], ◌∷◌, ◌++◌, ◌==◌, ltb, ltb→lt, if◌then◌else◌, Memᴰ, All,
  All-imp, All-append, any, Bool-cases, Option-cases, arith,
}
use polyserve.Float.{Float, from_ℕ, below, same, larger, smaller, magnitude}
use polyserve.Power.Settings.{PowerSetting, default_setting}

pub record Capabilities : Type 0 where
  pub gpu_index : ℕ
  pub power_limit_min_w : Option ℕ
  pub power_limit_max_w : Option ℕ
  pub power_limit_default_w : Option ℕ
  pub power_limit_current_w : Option ℕ
  -- Supported graphics clocks, descending.
  pub sm_clocks_mhz : List ℕ
  pub sm_clock_max_mhz : Option ℕ
  pub can_cap : Bool
  pub can_lock : Bool

-- `x or d` of a number that may be absent: 0 counts as absent.
abbrev pub or_else : Option ℕ → ℕ → ℕ
or_else none d = d
or_else (some zero) d = d
or_else (some (suc n)) d = suc n

abbrev pub same_number : Option ℕ → Option ℕ → Bool
same_number none none = true
same_number (some a) (some b) = a == b
same_number _ _ = false

abbrev pub same_setting : PowerSetting → PowerSetting → Bool
same_setting s t =
    same_number s.power_limit_w t.power_limit_w && same_number s.sm_clock_mhz t.sm_clock_mhz

-- `if p not in seen: …`, for the settings seen so far.
unfoldable pub distinct : List PowerSetting → List PowerSetting → List PowerSetting
distinct seen [] = []
distinct seen (p ∷ ps) = elim (any (same_setting p) seen) [
  | true ↦ distinct seen ps
  | false ↦ p ∷ distinct (p ∷ seen) ps
]

abbrev pub cap_to : ℕ → PowerSetting
cap_to w = record { power_limit_w = some w; sm_clock_mhz = none }

abbrev pub clock_to : ℕ → PowerSetting
clock_to mhz = record { power_limit_w = none; sm_clock_mhz = some mhz }

abbrev pub modes : List String
modes = "off" ∷ "cap" ∷ "clock" ∷ "both" ∷ []

module _ {W : Type 0} ⦃f : Float W⦄ where
  abbrev pub nearer : W → ℕ → ℕ → Bool
  nearer target a b =
      let da = magnitude (f.sub (from_ℕ a) target) in
      let db = magnitude (f.sub (from_ℕ b) target) in below da db || (same da db && ltb a b)

  -- `min(supported, key=…)`: `best` is the nearest so far.
  unfoldable pub snap : W → ℕ → List ℕ → ℕ
  snap target best [] = best
  snap target best (c ∷ cs) = snap target (if nearer target c best then c else best) cs

  abbrev pub cap_at : Capabilities → ℕ → W → ℕ
  cap_at caps dflt fraction =
      let lo = or_else caps.power_limit_min_w 1 in
      let hi = or_else caps.power_limit_max_w dflt in
      f.nearest (smaller (from_ℕ hi) (larger (from_ℕ lo) (f.mul (from_ℕ dflt) fraction)))

  unfoldable pub cap_points : Capabilities → ℕ → List W → List PowerSetting
  cap_points caps dflt [] = []
  cap_points caps dflt (x ∷ xs) =
      let w = cap_at caps dflt x in
      if ltb w dflt then cap_to w ∷ cap_points caps dflt xs else cap_points caps dflt xs

  unfoldable pub clock_points : ℕ → ℕ → List ℕ → List W → List PowerSetting
  unfolding snap
  clock_points top c cs [] = []
  clock_points top c cs (x ∷ xs) =
      let mhz = snap (f.mul (from_ℕ top) x) c cs in
      if ltb mhz top then clock_to mhz ∷ clock_points top c cs xs else clock_points top c cs xs

  abbrev pub caps_of : Capabilities → String → List W → List PowerSetting
  caps_of caps mode fractions =
      let dflt = or_else caps.power_limit_default_w 0 in
      if (str_eq mode "cap" || str_eq mode "both") && (caps.can_cap && not (dflt == 0))
      then cap_points caps dflt fractions
      else []

  abbrev pub clocks_from : Option ℕ → List ℕ → List W → List PowerSetting
  clocks_from highest [] fractions = []
  clocks_from highest (c ∷ cs) fractions = clock_points (or_else highest c) c cs fractions

  abbrev pub clocks_of : Capabilities → String → List W → List PowerSetting
  clocks_of caps mode fractions =
      if (str_eq mode "clock" || str_eq mode "both") && caps.can_lock
      then clocks_from caps.sm_clock_max_mhz caps.sm_clocks_mhz fractions
      else []

  -- `none` is the ValueError of an unknown mode.
  unfoldable pub candidate_points : Capabilities → String → List W → Option (List PowerSetting)
  candidate_points caps mode fractions =
      if any (str_eq mode) modes
      then some (
          distinct []
            (default_setting ∷ (caps_of caps mode fractions ++ clocks_of caps mode fractions)))
      else none

  abbrev pub default_fractions : List W
  default_fractions = f.decimal 85 2 ∷ f.decimal 70 2 ∷ f.decimal 55 2 ∷ []
