-- ===== src/Power/Tests.antt =====
-- A card that takes caps of 100 to 450 W, one that refuses to lock its clocks, and the theorems applied.
use polyserve.Base.{
  ℕ, ◌*◌, ◌≡◌, refl, ◌⊎◌, ◌&&◌, Bool, true, false, none, some, List, [], ◌∷◌, map, leb, All, arith,
  if◌then◌else◌,
}
use polyserve.Float.Decimals.{Decimal, decimal_float, Decimal-IsOrdered, Decimal-RoundsWithin}
use polyserve.Power.{
  Nvml, IsNvml, missing, saved, Power, fresh, state_of, remember_original, install_hooks, set_cap,
  set_clock, min_clock, restore_limit, restore_clocks, restores_all, is_changed, restore, apply,
  Command, applies, restores, perform, perform_all,
}
use polyserve.Power.Settings.{PowerSetting, default_setting}
use polyserve.Power.Original.{restore-brings_back, IsRestored}
use polyserve.Power.Record.{
  changes-AreRecorded, restore-undoes_applies, later_changes-Unrecorded, Unrecorded,
  failed_lock_leaves_cap, crash_forgotten,
}
use polyserve.Power.Points.{
  Capabilities, candidate_points, default_fractions, distinct, cap_points, clock_points, snap,
}
use polyserve.Power.Points.Valid.{candidate_points-AreValid, IsPoint, AreDistinct}

record Board : Type 0 where
  limit : ℕ
  locked : Bool

abbrev board_nvml : (lockable : Bool) → Nvml Board
board_nvml lockable = record {
  get_limit = λ d. some d.limit;
  set_limit =
      λ n d. if leb 100000 n && leb n 450000 then (true, (record d { limit = n })) else (false, d);
  lock_clocks = λ a b d. (lockable, (record d { locked = lockable }));
  reset_clocks = λ d. (true, (record d { locked = false }));
  memory_clocks = λ d. some (5000 ∷ 10000 ∷ []);
  graphics_clocks = λ m d. some (2100 ∷ 1500 ∷ 300 ∷ []);
}

board-IsNvml : (lockable : Bool) → IsNvml (board_nvml lockable) (λ d. d.limit)
board-IsNvml lockable = record {
  reads = λ d n e. cc;
  sets = λ n d e. ground arith;
  refuses = λ n d e. ground arith;
  locks = λ a b d. refl;
  resets = λ d. refl;
}

abbrev board : Board
board = record { limit = 350000; locked = false }

abbrev capped : PowerSetting
capped = record { power_limit_w = some 200; sm_clock_mhz = none }

abbrev both : PowerSetting
both = record { power_limit_w = some 200; sm_clock_mhz = some 1500 }

abbrev commands : List Command
commands = applies capped ∷ restores ∷ applies both ∷ []

abbrev nvml : Nvml Board
nvml = board_nvml true

-- What evaluation of the controller unfolds.
program : Unit {0}
unfolding perform_all perform apply remember_original install_hooks set_cap set_clock min_clock
    restore restore_limit restore_clocks
program = tt

abbrev after : Power Board
after = perform_all nvml 0 commands (fresh board missing)

after-limit : after.device.limit ≡ 200000
unfolding program
after-limit = refl

after-changed : is_changed after ≡ true
unfolding program
after-changed = refl

after-whole : restores_all nvml after ≡ true
unfolding program
after-whole = refl

restore-brings_back_example :
    IsRestored nvml (λ d. d.limit) (board-IsNvml true) 0 350000 (restore nvml after)
restore-brings_back_example =
    restore-brings_back nvml (λ d. d.limit) (board-IsNvml true) 0 board missing refl commands
      after-changed after-whole

abbrev settings : List PowerSetting
settings = capped ∷ both ∷ []

changes-AreRecorded_example :
    ((perform_all nvml 0 (map applies settings) (fresh board missing)).device.limit ≡ 350000)
    ⊎ ((perform_all nvml 0 (map applies settings) (fresh board missing)).file
        ≡ saved (some 0) (some 350000))
changes-AreRecorded_example =
    changes-AreRecorded nvml (λ d. d.limit) (board-IsNvml true) 0 board settings (refl, (refl, tt))

settings-whole :
    restores_all nvml (perform_all nvml 0 (map applies settings) (fresh board missing)) ≡ true
unfolding program
settings-whole = refl

restore-undoes_applies_example :
    (restore nvml (perform_all nvml 0 (map applies settings) (fresh board missing))).device.limit
    ≡ 350000
restore-undoes_applies_example =
    restore-undoes_applies nvml (λ d. d.limit) (board-IsNvml true) 0 board settings
      (refl, (refl, tt)) settings-whole

-- A controller that has applied a setting and restored the board.
abbrev restored : Bool → Power Board
restored lockable = record {
  device = board;
  file = missing;
  original_limit_mw = some 350000;
  clocks_locked = false;
  applied = none;
  hooks_installed = true;
}

restored-reached :
    perform_all nvml 0 (applies both ∷ restores ∷ []) (fresh board missing) ≡ restored true
unfolding program
restored-reached = refl

later_changes-Unrecorded_example :
    Unrecorded nvml
      (λ d. d.limit)
      (board-IsNvml true)
      0
      (perform_all nvml 0 commands (restored true))
later_changes-Unrecorded_example =
    later_changes-Unrecorded nvml (λ d. d.limit) (board-IsNvml true) 0 commands (restored true)
      (record { known = refl; cleared = refl })

failed_lock_leaves_cap_example :
    let q = state_of (apply (board_nvml false) 0 both (restored false)) in
    (restore (board_nvml false) q ≡ q) × (q.device.limit ≡ 200 * 1000)
failed_lock_leaves_cap_example =
    failed_lock_leaves_cap (board_nvml false) (λ d. d.limit) (board-IsNvml false) 0 350000 200 1500
      (restored false) refl refl refl refl (λ a b d. refl)

crash_forgotten_example :
    let p = state_of (
      apply nvml 0 default_setting
        (fresh (record board { limit = 200000 }) (saved (some 0) (some 350000)))) in
    (p ≡ fresh (record board { limit = 200000 }) missing)
    × ((state_of (apply nvml 0 capped p)).original_limit_mw ≡ some 200000)
crash_forgotten_example =
    crash_forgotten nvml (λ d. d.limit) (board-IsNvml true) 0 350000 200000
      (record board { limit = 200000 }) (saved (some 0) (some 350000)) capped refl refl refl

abbrev caps : Capabilities
caps = record {
  gpu_index = 0;
  power_limit_min_w = some 100;
  power_limit_max_w = some 450;
  power_limit_default_w = some 350;
  power_limit_current_w = some 350;
  sm_clocks_mhz = 2100 ∷ 1500 ∷ 1200 ∷ 300 ∷ [];
  sm_clock_max_mhz = some 2100;
  can_cap = true;
  can_lock = true;
}

abbrev points : List PowerSetting
points =
    default_setting
    ∷ (record { power_limit_w = some 298; sm_clock_mhz = none })
    ∷ (record { power_limit_w = some 245; sm_clock_mhz = none })
    ∷ (record { power_limit_w = some 193; sm_clock_mhz = none })
    ∷ (record { power_limit_w = none; sm_clock_mhz = some 1500 })
    ∷ (record { power_limit_w = none; sm_clock_mhz = some 1200 })
    ∷ []

points-found : candidate_points {W = Decimal} caps "both" default_fractions ≡ some points
unfolding candidate_points distinct cap_points clock_points snap
points-found = refl

candidate_points-AreValid_example :
    ((rest : List PowerSetting) × (points ≡ default_setting ∷ rest))
    × (All (IsPoint caps) points × AreDistinct points)
candidate_points-AreValid_example =
    candidate_points-AreValid Decimal-IsOrdered Decimal-RoundsWithin caps refl "both"
      default_fractions points points-found
