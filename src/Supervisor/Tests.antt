-- ===== src/Supervisor/Tests.antt =====
-- A supervisor with a budget of two restarts, and the theorems applied to it.
use polyserve.Base.{arith, ◌≡◌, refl, inr, true, false, some, List, [], ◌∷◌, ◌++◌}
use polyserve.Supervisor.{
  Launch, failed, refused, not_ready, ready, Failure, waiting, backing_off, Watch, Tick, Event,
  interval, checked, spawns, settles, stop_set, stop_joined, observe, spawn, settle, step, run,
  started,
}
use polyserve.Supervisor.Budget.{Within, run-Within}
use polyserve.Supervisor.Engines.{OneEngine, run-OneEngine}
use polyserve.Supervisor.GivingUp.{dead, attempts, GaveUp, attempts-give_up}
use polyserve.Supervisor.Stop.{IsDown, stop-IsDown, stop_while_asleep}

abbrev slow : Tick
slow = record { alive = true; responds = false; still_alive = true }

-- Two misses, a third that restarts, a launch that is not ready, and one that is.
abbrev events : List Event
events =
    interval
    ∷ checked slow
    ∷ interval
    ∷ checked slow
    ∷ interval
    ∷ checked slow
    ∷ spawns true
    ∷ settles false
    ∷ interval
    ∷ checked dead
    ∷ spawns true
    ∷ settles true
    ∷ interval
    ∷ checked slow
    ∷ []

program : Unit {0}
unfolding run step observe spawn settle
program = tt

run-events : run 2 started events ≡ record {
  stopped = false ∷ true ∷ true ∷ [];
  restarts = 2;
  misses = 1;
  last_error = some (Failure.launch_failed not_ready);
  phase = waiting;
  stopping = false;
}
unfolding program
run-events = refl

run-Within_example : Within 2 (run 2 started events)
run-Within_example =
    run-Within 2 events started
      (record { budget = omega arith; pause = λ s e. cc; over = λ e f. cc })

started-OneEngine : OneEngine started
started-OneEngine = record { replaced = tt; asleep = λ s e. cc }

run-OneEngine_example : OneEngine (run 2 started events)
run-OneEngine_example = run-OneEngine 2 events started started-OneEngine

abbrev launches : List Launch
launches = failed refused ∷ failed not_ready ∷ ready ∷ []

attempts-give_up_example : GaveUp 3 launches started (run 3 started (attempts launches))
attempts-give_up_example = attempts-give_up 3 launches started refl refl refl

-- The thread sleeps before the third restart, for 8 s, and before the first one, for 2 s.
abbrev asleep : Watch
asleep = record started { stopped = true ∷ []; restarts = 3; misses = 1; phase = backing_off 8 }

abbrev dozing : Watch
dozing = record started { stopped = true ∷ []; restarts = 1; misses = 1; phase = backing_off 2 }

dozing-reached : run 2 started (interval ∷ checked dead ∷ []) ≡ dozing
unfolding program
dozing-reached = refl

dozing-OneEngine : OneEngine dozing
dozing-OneEngine = record { replaced = tt; asleep = λ s e. (refl, tt) }

-- A stop is called while the thread dozes; the new engine is there before the join is over.
stop-IsDown_example :
    IsDown 2 (run 2 dozing ((stop_set ∷ spawns true ∷ []) ++ stop_joined ∷ settles false ∷ []))
unfolding program
stop-IsDown_example =
    stop-IsDown 2 (spawns true ∷ []) (settles false ∷ []) dozing dozing-OneEngine (inr refl)

stop_while_asleep_example :
    (run 5 asleep (stop_set ∷ stop_joined ∷ spawns true ∷ settles true ∷ interval ∷ [])).stopped
    ≡ false ∷ true ∷ []
stop_while_asleep_example = stop_while_asleep 5 8 (interval ∷ []) asleep refl (omega arith) (tt, tt)
