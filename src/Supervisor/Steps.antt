-- ===== src/Supervisor/Steps.antt =====
-- What one event does in each phase of the thread.
use polyserve.Base.{◌≡◌, refl, subst, inl, inr, ℕ, Bool, true, Bool-cases, if◌then◌else◌, arith}
use polyserve.Supervisor.{
  Phase, waiting, checking, backing_off, launching, ended, Watch, Tick, Event, interval, checked,
  spawns, settles, stop_set, stop_joined, stop_newest, observe, spawn, settle, at_interval,
  at_check, at_spawn, at_settle, step,
}

module _ (max_restarts : ℕ) where
  -- The states that an event can lead to.
  pub data Steps (w : Watch) : Event → Watch → Type 0 where
    waited :
        w.phase ≡ waiting
        → Steps w interval (record w { phase = if w.stopping then ended else checking })
    observes : (t : Tick) → w.phase ≡ checking → Steps w (checked t) (observe max_restarts t w)
    launches : (b : Bool) (s : ℕ) → w.phase ≡ backing_off s → Steps w (spawns b) (spawn b w)
    launched : (b : Bool) → w.phase ≡ launching → Steps w (settles b) (settle b w)
    stays : (e : Event) → Steps w e w
    asked : Steps w stop_set (record w { stopping = true })
    is_stopped :
        w.stopping ≡ true → Steps w stop_joined (record w { stopped = stop_newest w.stopped })

  interval-Steps : (w : Watch) (p : Phase) → w.phase ≡ p → Steps w interval (at_interval w p)
  interval-Steps w waiting e = Steps.waited e
  interval-Steps w checking e = Steps.stays interval
  interval-Steps w (backing_off s) e = Steps.stays interval
  interval-Steps w launching e = Steps.stays interval
  interval-Steps w ended e = Steps.stays interval

  check-Steps :
      (t : Tick) (w : Watch) (p : Phase)
      → w.phase ≡ p
      → Steps w (checked t) (at_check max_restarts t w p)
  check-Steps t w waiting e = Steps.stays (checked t)
  check-Steps t w checking e = Steps.observes t e
  check-Steps t w (backing_off s) e = Steps.stays (checked t)
  check-Steps t w launching e = Steps.stays (checked t)
  check-Steps t w ended e = Steps.stays (checked t)

  spawn-Steps :
      (b : Bool) (w : Watch) (p : Phase) → w.phase ≡ p → Steps w (spawns b) (at_spawn b w p)
  spawn-Steps b w waiting e = Steps.stays (spawns b)
  spawn-Steps b w checking e = Steps.stays (spawns b)
  spawn-Steps b w (backing_off s) e = Steps.launches b s e
  spawn-Steps b w launching e = Steps.stays (spawns b)
  spawn-Steps b w ended e = Steps.stays (spawns b)

  settle-Steps :
      (b : Bool) (w : Watch) (p : Phase) → w.phase ≡ p → Steps w (settles b) (at_settle b w p)
  settle-Steps b w waiting e = Steps.stays (settles b)
  settle-Steps b w checking e = Steps.stays (settles b)
  settle-Steps b w (backing_off s) e = Steps.stays (settles b)
  settle-Steps b w launching e = Steps.launched b e
  settle-Steps b w ended e = Steps.stays (settles b)

  pub step-Steps : (e : Event) (w : Watch) → Steps w e (step max_restarts w e)
  unfolding step
  step-Steps interval w = interval-Steps w w.phase refl
  step-Steps (checked t) w = check-Steps t w w.phase refl
  step-Steps (spawns b) w = spawn-Steps b w w.phase refl
  step-Steps (settles b) w = settle-Steps b w w.phase refl
  step-Steps stop_set w = Steps.asked
  step-Steps stop_joined w = elim (Bool-cases w.stopping) [
    | inl e ↦ subst (Steps w stop_joined) (ground arith) (Steps.is_stopped e)
    | inr e ↦ subst (Steps w stop_joined) (ground arith) (Steps.stays stop_joined)
  ]
