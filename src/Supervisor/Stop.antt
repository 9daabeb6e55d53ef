-- ===== src/Supervisor/Stop.antt =====
-- What a `stop` does, depending on where the thread is.
use polyserve.Base.{
  ℕ, ◌<◌, ◌≡◌, refl, ap, subst, ◌∙◌, inl, inr, ◌⊎◌, Bool, true, false, List, [], ◌∷◌, ◌++◌, All,
  arith,
}
use polyserve.Supervisor.{
  Phase, waiting, checking, backing_off, ended, Watch, Tick, Event, spawns, settles, stop_set,
  stop_joined, stop_newest, observe, spawn, settle, step, run,
}
use polyserve.Supervisor.Steps.{Steps, step-Steps}
use polyserve.Supervisor.Engines.{
  AllStopped, OneEngine, run-OneEngine, stop_newest-AllStopped, older-AllStopped,
}

module _ (max_restarts : ℕ) where
  -- The thread is in its check, or asleep before a launch: it does not look at `_stop` before it launches.
  abbrev pub is_committed : Phase → Bool
  is_committed checking = true
  is_committed (backing_off s) = true
  is_committed _ = false

  abbrev is_idle : Phase → Bool
  is_idle waiting = true
  is_idle ended = true
  is_idle _ = false

  -- Nothing runs any more, and nothing will be launched.
  pub record IsDown (w : Watch) : Type 0 where
    pub stopping : w.stopping ≡ true
    pub stopped : AllStopped w.stopped
    pub free : is_committed w.phase ≡ false

  settle-IsDown : (b : Bool) (w : Watch) → IsDown w → IsDown (settle b w)
  unfolding settle
  settle-IsDown true w k = record { stopping = k.stopping; stopped = k.stopped; free = refl }
  settle-IsDown false w k = record {
    stopping = k.stopping;
    stopped = stop_newest-AllStopped w.stopped (older-AllStopped w.stopped k.stopped);
    free = refl;
  }

  Steps-IsDown : {e : Event} {w v : Watch} → Steps max_restarts w e v → IsDown w → IsDown v
  Steps-IsDown {w = w} (Steps.waited at) k = record {
    stopping = k.stopping;
    stopped = k.stopped;
    free = rw (k.stopping) refl;
  }
  Steps-IsDown (Steps.observes t at) k = absurd (ground arith)
  Steps-IsDown (Steps.launches b s at) k = absurd (ground arith)
  Steps-IsDown {w = w} (Steps.launched b at) k = settle-IsDown b w k
  Steps-IsDown (Steps.stays e) k = k
  Steps-IsDown Steps.asked k = record { stopping = refl; stopped = k.stopped; free = k.free }
  Steps-IsDown {w = w} (Steps.is_stopped at) k = record {
    stopping = k.stopping;
    stopped = stop_newest-AllStopped w.stopped (older-AllStopped w.stopped k.stopped);
    free = k.free;
  }

  run-IsDown : (es : List Event) (w : Watch) → IsDown w → IsDown (run max_restarts w es)
  unfolding run
  run-IsDown [] w k = k
  run-IsDown (e ∷ es) w k =
      run-IsDown es (step max_restarts w e) (Steps-IsDown (step-Steps max_restarts e w) k)

  observe-stopping : (t : Tick) (w : Watch) → (observe max_restarts t w).stopping ≡ w.stopping
  unfolding observe
  observe-stopping t w = ground arith

  spawn-stopping : (b : Bool) (w : Watch) → (spawn b w).stopping ≡ w.stopping
  unfolding spawn
  spawn-stopping true w = refl
  spawn-stopping false w = refl

  settle-stopping : (b : Bool) (w : Watch) → (settle b w).stopping ≡ w.stopping
  unfolding settle
  settle-stopping true w = refl
  settle-stopping false w = refl

  -- `_stop` stays set.
  Steps-stopping :
      {e : Event} {w v : Watch} → Steps max_restarts w e v → w.stopping ≡ true → v.stopping ≡ true
  Steps-stopping (Steps.waited at) k = k
  Steps-stopping {w = w} (Steps.observes t at) k = observe-stopping t w ∙ k
  Steps-stopping {w = w} (Steps.launches b s at) k = spawn-stopping b w ∙ k
  Steps-stopping {w = w} (Steps.launched b at) k = settle-stopping b w ∙ k
  Steps-stopping (Steps.stays e) k = k
  Steps-stopping Steps.asked k = refl
  Steps-stopping (Steps.is_stopped at) k = k

  run-stopping :
      (es : List Event) (w : Watch) → w.stopping ≡ true → (run max_restarts w es).stopping ≡ true
  unfolding run
  run-stopping [] w k = k
  run-stopping (e ∷ es) w k =
      run-stopping es (step max_restarts w e) (Steps-stopping (step-Steps max_restarts e w) k)

  settle-free : (b : Bool) (w : Watch) → is_committed (settle b w).phase ≡ false
  unfolding settle
  settle-free true w = refl
  settle-free false w = refl

  -- With `_stop` set, a thread that is in neither phase does not get there.
  Steps-free :
      {e : Event} {w v : Watch}
      → Steps max_restarts w e v
      → w.stopping ≡ true
      → is_committed w.phase ≡ false
      → is_committed v.phase ≡ false
  Steps-free (Steps.waited at) k h = rw k refl
  Steps-free (Steps.observes t at) k h = absurd (ground arith)
  Steps-free (Steps.launches b s at) k h = absurd (ground arith)
  Steps-free {w = w} (Steps.launched b at) k h = settle-free b w
  Steps-free (Steps.stays e) k h = h
  Steps-free Steps.asked k h = h
  Steps-free (Steps.is_stopped at) k h = h

  run-free :
      (es : List Event) (w : Watch)
      → w.stopping ≡ true
      → is_committed w.phase ≡ false
      → is_committed (run max_restarts w es).phase ≡ false
  unfolding run
  run-free [] w k h = h
  run-free (e ∷ es) w k h =
      let s = step-Steps max_restarts e w in
      run-free es (step max_restarts w e) (Steps-stopping s k) (Steps-free s k h)

  run-append :
      (es fs : List Event) (w : Watch)
      → run max_restarts w (es ++ fs) ≡ run max_restarts (run max_restarts w es) fs
  unfolding run
  run-append [] fs w = refl
  run-append (e ∷ es) fs w = run-append es fs (step max_restarts w e)

  joined-IsDown :
      (w : Watch)
      → w.stopping ≡ true
      → OneEngine w
      → is_committed w.phase ≡ false
      → IsDown (step max_restarts w stop_joined)
  unfolding step
  joined-IsDown w k one free = subst IsDown (ground arith) (
      let down : IsDown (record w { stopped = stop_newest w.stopped }) = record {
        stopping = k;
        stopped = stop_newest-AllStopped w.stopped one.replaced;
        free = free;
      } in
      down)

  free_later :
      (es : List Event) (w : Watch)
      → (is_committed w.phase ≡ false)
        ⊎ (is_committed (run max_restarts w (stop_set ∷ es)).phase ≡ false)
      → is_committed (run max_restarts w (stop_set ∷ es)).phase ≡ false
  unfolding run step
  free_later es w (inl h) = run-free es (step max_restarts w stop_set) refl h
  free_later es w (inr h) = h

  -- A `stop` whose call finds the thread neither in its check nor asleep before a launch, or whose join
  -- is over when the thread is in neither: from then on no engine runs and none is launched, whatever
  -- happens during the join and later.
  pub stop-IsDown :
      (meanwhile later : List Event) (w : Watch)
      → OneEngine w
      → (is_committed w.phase ≡ false)
        ⊎ (is_committed (run max_restarts w (stop_set ∷ meanwhile)).phase ≡ false)
      → IsDown (run max_restarts w ((stop_set ∷ meanwhile) ++ stop_joined ∷ later))
  unfolding run step
  stop-IsDown meanwhile later w one h =
      let v = run max_restarts w (stop_set ∷ meanwhile) in
      rw (run-append (stop_set ∷ meanwhile) (stop_joined ∷ later) w) (
        run-IsDown later (step max_restarts v stop_joined) (
          joined-IsDown v (run-stopping meanwhile (step max_restarts w stop_set) refl)
            (run-OneEngine max_restarts (stop_set ∷ meanwhile) w one) (free_later meanwhile w h)))

  -- The events of the thread: no `stop` comes to an end among them.
  abbrev pub IsOfThread : Event → Type 0
  IsOfThread stop_joined = ⊥
  IsOfThread _ = Unit

  -- With `_stop` set, a thread that waits for its interval, or has left, changes no engine.
  record Left (bs : List Bool) (w : Watch) : Type 0 where
    set : w.stopping ≡ true
    idle : is_idle w.phase ≡ true
    same : w.stopped ≡ bs

  Steps-Left :
      (bs : List Bool) {e : Event} {w v : Watch}
      → Steps max_restarts w e v
      → IsOfThread e
      → Left bs w
      → Left bs v
  Steps-Left bs (Steps.waited at) h k = record {
    set = k.set;
    idle = rw (k.set) refl;
    same = k.same;
  }
  Steps-Left bs (Steps.observes t at) h k = let i = k.idle in absurd (ground arith)
  Steps-Left bs (Steps.launches b s at) h k = let i = k.idle in absurd (ground arith)
  Steps-Left bs (Steps.launched b at) h k = let i = k.idle in absurd (ground arith)
  Steps-Left bs (Steps.stays e) h k = k
  Steps-Left bs Steps.asked h k = record { set = refl; idle = k.idle; same = k.same }
  Steps-Left bs (Steps.is_stopped at) h k = absurd h

  run-Left :
      (bs : List Bool) (es : List Event) (w : Watch)
      → All IsOfThread es
      → Left bs w
      → Left bs (run max_restarts w es)
  unfolding run
  run-Left bs [] w h k = k
  run-Left bs (e ∷ es) w h k =
      run-Left bs es (step max_restarts w e) h.1 (Steps-Left bs (step-Steps max_restarts e w) h.0 k)

  launched-Left :
      (s : ℕ) (w : Watch)
      → w.phase ≡ backing_off s
      → Left
          (false ∷ stop_newest w.stopped)
          (run max_restarts w (stop_set ∷ stop_joined ∷ spawns true ∷ settles true ∷ []))
  unfolding run step spawn settle
  launched-Left s w at = record { set = ground arith; idle = ground arith; same = ground arith }

  -- When the thread sleeps for longer than the 5 s for which `stop` waits, `stop` may come to its end
  -- before the thread wakes: an engine that is then launched and gets ready runs on for as long as no
  -- other `stop` comes to an end.
  pub stop_while_asleep :
      (s : ℕ) (later : List Event) (w : Watch)
      → w.phase ≡ backing_off s
      → 5 < s
      → All IsOfThread later
      → (run max_restarts w (stop_set ∷ stop_joined ∷ spawns true ∷ settles true ∷ later)).stopped
        ≡ false ∷ stop_newest w.stopped
  stop_while_asleep s later w at long h =
      let first = stop_set ∷ stop_joined ∷ spawns true ∷ settles true ∷ [] in
      ap (λ v. v.stopped) (run-append first later w)
      ∙ (run-Left _ later (run max_restarts w first) h (launched-Left s w at)).same
