-- ===== src/Layouts.antt =====
-- polyserve/layout.py: the shapes of a tensor-parallel engine (`tp_candidates`), and the start of
-- several engines, in a trial (`launch_replicas`) and for serving (`ReplicaSupervisor.start`). What the
-- start of an engine does is given: `none` is that it raises, before there is an engine.
pub mod Shapes
pub mod Start
mod Tests
use polyserve.Base.{
  ℕ, ◌*◌, Bool, true, false, not, ◌&&◌, Option, none, some, List, [], ◌∷◌, ◌++◌, map, if◌then◌else◌,
  ltb, all,
}
use polyserve.Float.{Float, smaller}
use polyserve.Models.{Config}

-- A prefill budget that no longer covers the batch is dropped.
abbrev pub covering : ℕ → Option ℕ → Option ℕ
covering batch none = none
covering batch (some budget) = if ltb budget batch then none else some budget

module _ {W : Type 0} ⦃f : Float W⦄ where
  -- `_strip`.
  abbrev pub strip : Config W → Config W
  strip cfg = record cfg { power_limit_w = none; sm_clock_mhz = none; tp = 1 }

  -- TP_MAX_GPU_MEMORY_UTILIZATION.
  abbrev pub tp_most : W
  tp_most = f.decimal 90 2

  abbrev pub at_tp_most : Option W → Option W
  at_tp_most none = none
  at_tp_most (some gmu) = some (smaller gmu tp_most)

  abbrev pub tp_base : Config W → ℕ → Config W
  tp_base cfg n =
      let base = record (strip cfg) { tp = n } in
      record base { gpu_memory_utilization = at_tp_most base.gpu_memory_utilization }

  abbrev pub doubled : Config W → Config W
  doubled base = record base {
    batch = base.batch * 2;
    prefill_budget = covering (base.batch * 2) base.prefill_budget;
  }

  unfoldable pub tp_candidates : Config W → ℕ → List (Config W)
  tp_candidates cfg n = tp_base cfg n ∷ doubled (tp_base cfg n) ∷ []

-- How a start ends: an exception, an error that is returned, or the engines.
pub data Ending : Type 0 where
  raised failed launched : Ending

-- For each engine that was started, in order, whether nothing has stopped it.
pub record Launched : Type 0 where
  pub unstopped : List Bool
  pub ending : Ending

abbrev pub stop_all : List Bool → List Bool
stop_all engines = map (λ e. false) engines

-- `launch_replicas`: each engine is started, then all are waited for. `ready` has whether each of those
-- that were started got ready.
unfoldable pub launch_from : (ready : List Bool) → List (Option Bool) → Launched
launch_from ready [] =
    if all (λ r. r) ready
    then record { unstopped = map (λ r. true) ready; ending = launched }
    else record { unstopped = stop_all ready; ending = failed }
launch_from ready (none ∷ starts) = record { unstopped = map (λ r. true) ready; ending = raised }
launch_from ready (some r ∷ starts) = launch_from (ready ++ r ∷ []) starts

abbrev pub launch_replicas : List (Option Bool) → Launched
launch_replicas starts = launch_from [] starts

-- `ReplicaSupervisor.start`: `started` are those that are up. A supervisor whose engine does not get
-- ready stops it and raises.
unfoldable pub start_from : (started : List Bool) → List (Option Bool) → Launched
start_from started [] = record { unstopped = started; ending = launched }
start_from started (some true ∷ starts) = start_from (started ++ true ∷ []) starts
start_from started (_ ∷ starts) = record { unstopped = stop_all started; ending = raised }

abbrev pub start : List (Option Bool) → Launched
start starts = start_from [] starts
