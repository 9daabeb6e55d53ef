-- ===== src/Supervisor/Budget.antt =====
-- How often the thread restarts the engine, how long it waits before it does, and when it gives up.
use polyserve.Base.{
  ℕ, ◌≤◌, ◌≡◌, inl, inr, Bool, true, false, Bool-cases, some, List, [], ◌∷◌, arith,
}
use polyserve.Supervisor.{
  Failure, checking, backing_off, ended, Watch, Tick, Event, delay, observe, spawn, settle, step,
  run,
}
use polyserve.Supervisor.Steps.{Steps, step-Steps}

module _ (max_restarts : ℕ) where
  pub record Within (w : Watch) : Type 0 where
    pub budget : w.restarts ≤ max_restarts
    pub pause : (s : ℕ) → w.phase ≡ backing_off s → s ≡ delay w.restarts
    pub over :
        w.phase ≡ ended
        → w.stopping ≡ false
        → (w.restarts ≡ max_restarts)
          × (w.last_error ≡ some (Failure.budget_exhausted max_restarts))

  observe-Within :
      (t : Tick) (w : Watch) → w.phase ≡ checking → Within w → Within (observe max_restarts t w)
  unfolding observe
  observe-Within t w at k =
      let budget = k.budget in
      record { budget = ground arith; pause = λ s e. ground arith; over = λ e f. ground arith }

  spawn-Within : (b : Bool) (w : Watch) → Within w → Within (spawn b w)
  unfolding spawn
  spawn-Within true w k = record { budget = k.budget; pause = λ s e. cc; over = λ e f. cc }
  spawn-Within false w k = record { budget = k.budget; pause = λ s e. cc; over = λ e f. cc }

  settle-Within : (b : Bool) (w : Watch) → Within w → Within (settle b w)
  unfolding settle
  settle-Within true w k = record { budget = k.budget; pause = λ s e. cc; over = λ e f. cc }
  settle-Within false w k = record { budget = k.budget; pause = λ s e. cc; over = λ e f. cc }

  Steps-Within : {e : Event} {w v : Watch} → Steps max_restarts w e v → Within w → Within v
  Steps-Within {w = w} (Steps.waited at) k = elim (Bool-cases w.stopping) [
    | inl e ↦ rw e (record { budget = k.budget; pause = λ s e. cc; over = λ e f. cc })
    | inr e ↦ rw e (record { budget = k.budget; pause = λ s e. cc; over = λ e f. cc })
  ]
  Steps-Within {w = w} (Steps.observes t at) k = observe-Within t w at k
  Steps-Within {w = w} (Steps.launches b s at) k = spawn-Within b w k
  Steps-Within {w = w} (Steps.launched b at) k = settle-Within b w k
  Steps-Within (Steps.stays e) k = k
  Steps-Within Steps.asked k = record { budget = k.budget; pause = k.pause; over = λ e f. cc }
  Steps-Within (Steps.is_stopped at) k = record {
    budget = k.budget;
    pause = k.pause;
    over = k.over;
  }

  -- Whatever the engine does, the thread never restarts it more often than the budget allows, sleeps
  -- 2^n seconds and at most 60 before the n-th restart, and leaves its loop with no stop being asked
  -- only when the budget is used up, which it reports.
  pub run-Within : (es : List Event) (w : Watch) → Within w → Within (run max_restarts w es)
  unfolding run
  run-Within [] w k = k
  run-Within (e ∷ es) w k =
      run-Within es (step max_restarts w e) (Steps-Within (step-Steps max_restarts e w) k)
