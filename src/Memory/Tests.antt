-- ===== src/Memory/Tests.antt =====
-- The planner on a card of 24 GiB, and the theorems about it applied there.
use polyserve.Base.{◌+◌, ◌*◌, ◌≤◌, ◌≡◌, refl, true, false, none, some, List, [], ◌∷◌, Memᴰ}
use polyserve.Float.{from_ℕ}
use polyserve.Float.Decimals.{Decimal, decimal_float}
use polyserve.Models.{Config, MemoryEstimate, GpuInfo, gpu, kv_bytes_per_token, key}
use polyserve.Models.Samples.{plain, machine, small_model}
use polyserve.HfConfig.{kv_element_bytes}
use polyserve.Memory.{
  MemoryModel, min_safety_margin, budget_fraction, available_on, estimate_with, estimate, host_fits,
  consider, plan, safety_margin, kv_cache_bytes,
}
use polyserve.Memory.Budget.{feasible_leaves_room}
use polyserve.Memory.Plan.{Fits, plan_complete}

abbrev mm : MemoryModel Decimal
mm = record {
  runtime_workspace = 1073741824;
  kv_tokens = λ c. c.ctx * c.batch;
  device = "gpu";
  margin_fraction = decimal_float.decimal 5 2;
  calibrated = false;
}

-- 256 users of 4096 tokens do not fit; 8 do.
abbrev large : Config Decimal
large = record plain { batch = 256 }

abbrev small : Config Decimal
small = record plain { batch = 8 }

abbrev small_estimate : MemoryEstimate
small_estimate = estimate_with machine small_model mm small none 3221225472

abbrev kept : List (Config Decimal × MemoryEstimate)
kept = (small, small_estimate) ∷ []

-- What evaluation of `plan` unfolds.
program : Unit {0}
unfolding estimate_with consider plan estimate host_fits key kv_cache_bytes safety_margin
    kv_element_bytes kv_bytes_per_token
program = tt

plan-kept : plan machine small_model mm (large ∷ small ∷ []) ≡ some kept
unfolding program
plan-kept = refl

small_fits : estimate machine small_model mm small none ≡ some small_estimate
unfolding program
small_fits = refl

small_feasible : small_estimate.feasible ≡ true
unfolding program
small_feasible = refl

feasible_leaves_room_example :
    (small_estimate.weights + small_estimate.kv_cache + small_estimate.runtime_workspace
        + min_safety_margin
      ≤ decimal_float.trunc
          (decimal_float.mul budget_fraction (from_ℕ (available_on machine mm none))))
    × ((share : Decimal) (g : GpuInfo)
        → small.gpu_memory_utilization ≡ some share
        → gpu machine ≡ some g
        → true ≡ true
        → small_estimate.weights + small_estimate.kv_cache + small_estimate.runtime_workspace
            + min_safety_margin
          ≤ decimal_float.trunc (decimal_float.mul share (from_ℕ g.vram_total_bytes)))
feasible_leaves_room_example =
    feasible_leaves_room machine small_model mm small none small_estimate small_fits small_feasible

small-Fits : Fits machine small_model mm small small_estimate
unfolding program
small-Fits = record {
  size = 3221225472;
  sized = refl;
  estimated = small_fits;
  feasible = small_feasible;
  on_host = refl;
}

plan_complete_example : Memᴰ (small, small_estimate) kept
plan_complete_example =
    plan_complete machine small_model mm (large ∷ small ∷ []) kept small small_estimate plan-kept
      (Memᴰ.tail (Memᴰ.head refl)) small-Fits
