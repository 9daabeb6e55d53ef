-- ===== src/Supervisor/Engines.antt =====
-- Which engines run: never more than one, and none while the thread sleeps before a launch.
use polyserve.Base.{
  ℕ, ◌≡◌, refl, Bool, true, false, Bool-cases, List, [], ◌∷◌, All, arith, inl, inr, ◌⊎◌,
}
use polyserve.Supervisor.{
  waiting, backing_off, ended, Watch, Tick, Event, stop_newest, observe, spawn, settle, step, run,
}
use polyserve.Supervisor.Steps.{Steps, step-Steps}

abbrev pub older : List Bool → List Bool
older [] = []
older (b ∷ bs) = bs

abbrev pub AllStopped : List Bool → Type 0
AllStopped bs = All (λ b. b ≡ true) bs

pub record OneEngine (w : Watch) : Type 0 where
  pub replaced : AllStopped (older w.stopped)
  pub asleep : (s : ℕ) → w.phase ≡ backing_off s → AllStopped w.stopped

pub older-AllStopped : (bs : List Bool) → AllStopped bs → AllStopped (older bs)
older-AllStopped [] h = tt
older-AllStopped (b ∷ bs) h = h.1

pub stop_newest-AllStopped : (bs : List Bool) → AllStopped (older bs) → AllStopped (stop_newest bs)
stop_newest-AllStopped [] h = tt
stop_newest-AllStopped (b ∷ bs) h = (refl, h)

older-stop_newest : (bs : List Bool) → AllStopped (older bs) → AllStopped (older (stop_newest bs))
older-stop_newest [] h = tt
older-stop_newest (b ∷ bs) h = h

-- A check leaves the engines as they are and does not sleep, or stops the newest and sleeps.
observe_cases :
    (m : ℕ) (t : Tick) (w : Watch)
    → ((observe m t w).stopped ≡ w.stopped)
        × (((observe m t w).phase ≡ waiting) ⊎ ((observe m t w).phase ≡ ended))
      ⊎ ((observe m t w).stopped ≡ stop_newest w.stopped)
unfolding observe
observe_cases m t w = ground arith

module _ (max_restarts : ℕ) where
  observe-OneEngine : (t : Tick) (w : Watch) → OneEngine w → OneEngine (observe max_restarts t w)
  observe-OneEngine t w k = elim (observe_cases max_restarts t w) [
    | inl (same, awake) ↦ record {
      replaced = rw same k.replaced;
      asleep = λ s e. rw same (elim awake [ inl waits ↦ cc | inr over ↦ cc ]);
    }
    | inr stop ↦ record {
      replaced = rw stop (older-stop_newest w.stopped k.replaced);
      asleep = λ s e. rw stop (stop_newest-AllStopped w.stopped k.replaced);
    }
  ]

  spawn-OneEngine : (b : Bool) (w : Watch) → AllStopped w.stopped → OneEngine (spawn b w)
  unfolding spawn
  spawn-OneEngine true w h = record { replaced = h; asleep = λ s e. cc }
  spawn-OneEngine false w h = record { replaced = older-AllStopped w.stopped h; asleep = λ s e. cc }

  settle-OneEngine : (b : Bool) (w : Watch) → OneEngine w → OneEngine (settle b w)
  unfolding settle
  settle-OneEngine true w k = record { replaced = k.replaced; asleep = λ s e. cc }
  settle-OneEngine false w k = record {
    replaced = older-stop_newest w.stopped k.replaced;
    asleep = λ s e. cc;
  }

  pub Steps-OneEngine :
      {e : Event} {w v : Watch} → Steps max_restarts w e v → OneEngine w → OneEngine v
  Steps-OneEngine {w = w} (Steps.waited at) k = elim (Bool-cases w.stopping) [
    | inl e ↦ rw e (record { replaced = k.replaced; asleep = λ s e. cc })
    | inr e ↦ rw e (record { replaced = k.replaced; asleep = λ s e. cc })
  ]
  Steps-OneEngine {w = w} (Steps.observes t at) k = observe-OneEngine t w k
  Steps-OneEngine {w = w} (Steps.launches b s at) k = spawn-OneEngine b w (k.asleep s at)
  Steps-OneEngine {w = w} (Steps.launched b at) k = settle-OneEngine b w k
  Steps-OneEngine (Steps.stays e) k = k
  Steps-OneEngine Steps.asked k = record { replaced = k.replaced; asleep = k.asleep }
  Steps-OneEngine {w = w} (Steps.is_stopped at) k = record {
    replaced = older-stop_newest w.stopped k.replaced;
    asleep = λ s e. stop_newest-AllStopped w.stopped k.replaced;
  }

  -- Whatever the engine does and whenever the supervisor is stopped, every engine that was replaced
  -- has been stopped before, and while the thread sleeps before a launch every engine is stopped.
  pub run-OneEngine :
      (es : List Event) (w : Watch) → OneEngine w → OneEngine (run max_restarts w es)
  unfolding run
  run-OneEngine [] w k = k
  run-OneEngine (e ∷ es) w k =
      run-OneEngine es (step max_restarts w e) (Steps-OneEngine (step-Steps max_restarts e w) k)
