-- ===== src/Supervisor.antt =====
-- polyserve/serve/supervisor.py: the engine that is served, and the thread that restarts it.
-- What happens is a sequence of events. The thread looks at `_stop` only when it waits for the next
-- interval; the check of the engine, the sleep before a restart and the wait for a launched engine are
-- phases of their own, so that `stop` may be called in each. `stop` is two events: it sets `_stop` and
-- joins the thread, and when the join is over, at the thread's end or after 5 s, it stops the engine that
-- is `self.process` then. `process.stop()` of the thread is part of the event that ends the check: a
-- second stop of that engine meanwhile changes nothing. Engines are kept newest first, each with whether it was stopped:
-- `self.process` is the newest. `2.0 ** restarts` is exact here: it is a float power, which holds for
-- budgets below 1024 restarts.
pub mod Budget
pub mod Engines
pub mod GivingUp
pub mod Steps
pub mod Stop
mod Tests
use polyserve.Base.{
  ℕ, zero, suc, ◌+◌, ◌^◌, min, String, Bool, true, false, not, ◌&&◌, ◌||◌, Option, none, some, List,
  [], ◌∷◌, ltb, leb, if◌then◌else◌, is_some,
}
use polyserve.Power.{Nvml, Power, Outcome, returned, raised, apply, restore}
use polyserve.Power.Settings.{PowerSetting}

-- The launch raised before it had an engine; the engine did not get ready.
pub data Fault : Type 0 where
  refused not_ready : Fault

-- How a whole launch ends.
pub data Launch : Type 0 where
  failed : Fault → Launch
  ready : Launch

pub data Failure : Type 0 where
  budget_exhausted : (max_restarts : ℕ) → Failure
  launch_failed : Fault → Failure

-- Waiting for the next interval; in the check; asleep before a launch, up to the moment when there is a
-- new engine; waiting for it to get ready; the loop is left.
pub data Phase : Type 0 where
  waiting checking : Phase
  backing_off : (seconds : ℕ) → Phase
  launching ended : Phase

pub record Watch : Type 0 where
  pub stopped : List Bool
  pub restarts : ℕ
  pub misses : ℕ
  pub last_error : Option Failure
  pub phase : Phase
  -- `_stop` is set.
  pub stopping : Bool

-- `self.process.alive()` as `healthy` sees it, the answer to its request, and `alive()` once more.
pub record Tick : Type 0 where
  pub alive : Bool
  pub responds : Bool
  pub still_alive : Bool

pub data Event : Type 0 where
  -- `_stop.wait` returns.
  interval : Event
  -- The check ends, and the old engine is stopped if there is to be a new one.
  checked : Tick → Event
  -- After the sleep, there is a new engine, or the launch raises.
  spawns : Bool → Event
  -- `wait_ready` returns.
  settles : Bool → Event
  -- `stop` sets `_stop`; its join is over, and it stops the engine.
  stop_set stop_joined : Event

-- `self.process.stop()`, if there is an engine.
abbrev pub stop_newest : List Bool → List Bool
stop_newest [] = []
stop_newest (b ∷ bs) = true ∷ bs

abbrev pub has_process : Watch → Bool
has_process w = elim w.stopped [ [] ↦ false | b ∷ bs ↦ true ]

abbrev pub healthy : Tick → Watch → Bool
healthy t w = has_process w && (t.alive && t.responds)

abbrev pub delay : ℕ → ℕ
delay restarts = min 60 (2 ^ restarts)

-- The turn of the loop of `_watch` from the check up to the sleep.
unfoldable pub observe : ℕ → Tick → Watch → Watch
observe max_restarts t w =
    if healthy t w
    then record w { misses = 0; phase = waiting }
    else if ltb (suc w.misses) 3 && (has_process w && t.still_alive)
    then record w { misses = suc w.misses; phase = waiting }
    else if leb max_restarts w.restarts
    then record w {
      misses = suc w.misses;
      last_error = some (Failure.budget_exhausted max_restarts);
      phase = ended;
    }
    else record w {
      misses = suc w.misses;
      restarts = suc w.restarts;
      stopped = stop_newest w.stopped;
      phase = backing_off (delay (suc w.restarts));
    }

-- `_launch` in the loop, up to the new engine.
unfoldable pub spawn : Bool → Watch → Watch
spawn true w = record w { stopped = false ∷ w.stopped; phase = launching }
spawn false w = record w { last_error = some (Failure.launch_failed refused); phase = waiting }

-- The rest of the turn: an engine that does not get ready is stopped.
unfoldable pub settle : Bool → Watch → Watch
settle true w = record w { misses = 0; phase = waiting }
settle false w = record w {
  stopped = stop_newest w.stopped;
  last_error = some (Failure.launch_failed not_ready);
  phase = waiting;
}

-- What the thread does is a matter of where it is.
abbrev pub at_interval : Watch → Phase → Watch
at_interval w waiting = record w { phase = if w.stopping then ended else checking }
at_interval w _ = w

abbrev pub at_check : ℕ → Tick → Watch → Phase → Watch
at_check max_restarts t w checking = observe max_restarts t w
at_check max_restarts t w _ = w

abbrev pub at_spawn : Bool → Watch → Phase → Watch
at_spawn b w (backing_off s) = spawn b w
at_spawn b w _ = w

abbrev pub at_settle : Bool → Watch → Phase → Watch
at_settle b w launching = settle b w
at_settle b w _ = w

unfoldable pub step : ℕ → Watch → Event → Watch
step max_restarts w interval = at_interval w w.phase
step max_restarts w (checked t) = at_check max_restarts t w w.phase
step max_restarts w (spawns b) = at_spawn b w w.phase
step max_restarts w (settles b) = at_settle b w w.phase
step max_restarts w stop_set = record w { stopping = true }
step max_restarts w stop_joined =
    if w.stopping then record w { stopped = stop_newest w.stopped } else w

unfoldable pub run : ℕ → Watch → List Event → Watch
run max_restarts w [] = w
run max_restarts w (e ∷ es) = run max_restarts (step max_restarts w e) es

-- The state after a `start` that succeeds: an engine that is not ready makes `start` raise.
abbrev pub started : Watch
started = record {
  stopped = false ∷ [];
  restarts = 0;
  misses = 0;
  last_error = none;
  phase = waiting;
  stopping = false;
}

unfoldable pub start : Launch → Option Watch
start Launch.ready = some started
start _ = none

pub data PowerError : Type 0 where
  no_controller not_applied : PowerError

-- `_apply_power`, and what `stop` does with the controller: the controller, if any, and `power_error`.
unfoldable pub apply_power :
    {D : Type 0}
    → Nvml D
    → ℕ
    → PowerSetting
    → Option (Power D)
    → Option (Power D) × Option PowerError
apply_power nvml index s power =
    if not (is_some s.power_limit_w) && not (is_some s.sm_clock_mhz)
    then (power, none)
    else elim power [
      | none ↦ (none, some no_controller)
      | some p ↦ elim (apply nvml index s p) [
        | returned q ↦ (some q, none)
        | raised q ↦ (some q, some not_applied)
      ]
    ]

unfoldable pub release_power : {D : Type 0} → Nvml D → Option (Power D) → Option (Power D)
release_power nvml none = none
release_power nvml (some p) = if is_some p.applied then some (restore nvml p) else some p
