-- ===== src/Supervisor/GivingUp.antt =====
-- Giving up on an engine that is found dead again and again.
use polyserve.Base.{
  ℕ, suc, ◌+◌, ◌<◌, ◌≡◌, refl, Bool, true, false, some, List, [], ◌∷◌, length, arith,
}
use polyserve.Supervisor.{
  refused, not_ready, Launch, failed, ready, Failure, waiting, ended, Watch, Tick, Event, interval,
  checked, spawns, settles, stop_newest, observe, spawn, settle, step, run,
}

abbrev pub dead : Tick
dead = record { alive = false; responds = false; still_alive = false }

-- The engine is found dead, and is launched again with one of the outcomes, until they are used up.
abbrev pub attempts : List Launch → List Event
attempts [] = interval ∷ checked dead ∷ []
attempts (failed refused ∷ ls) = interval ∷ checked dead ∷ spawns false ∷ attempts ls
attempts (failed not_ready ∷ ls) =
    interval ∷ checked dead ∷ spawns true ∷ settles false ∷ attempts ls
attempts (ready ∷ ls) = interval ∷ checked dead ∷ spawns true ∷ settles true ∷ attempts ls

-- The launches that get as far as an engine.
abbrev pub engines : List Launch → ℕ
engines [] = 0
engines (failed refused ∷ ls) = engines ls
engines (failed not_ready ∷ ls) = suc (engines ls)
engines (ready ∷ ls) = suc (engines ls)

module _ (max_restarts : ℕ) where
  pub record GoesOn (w : Watch) : Type 0 where
    pub waits : w.phase ≡ waiting
    pub going : w.stopping ≡ false

  -- The engine is found dead.
  abbrev found_dead : Watch → Watch
  found_dead w = step max_restarts (step max_restarts w interval) (checked dead)

  abbrev after : Launch → Watch → Watch
  after (failed refused) w = step max_restarts (found_dead w) (spawns false)
  after (failed not_ready) w =
      step max_restarts (step max_restarts (found_dead w) (spawns true)) (settles false)
  after ready w = step max_restarts (step max_restarts (found_dead w) (spawns true)) (settles true)

  length-stop_newest : (bs : List Bool) → length (stop_newest bs) ≡ length bs
  length-stop_newest [] = refl
  length-stop_newest (b ∷ bs) = refl

  record Attempted (l : Launch) (w v : Watch) : Type 0 where
    on : GoesOn v
    more : v.restarts ≡ suc w.restarts
    launched : length v.stopped ≡ length w.stopped + engines (l ∷ [])

  attempt :
      (l : Launch) (w : Watch) → GoesOn w → w.restarts < max_restarts → Attempted l w (after l w)
  unfolding step observe spawn settle
  attempt (failed refused) w k lt =
      let at = k.waits in
      let going = k.going in
      record {
        on = record { waits = ground arith; going = ground arith };
        more = ground arith;
        launched = ground (arith, length-stop_newest w.stopped);
      }
  attempt (failed not_ready) w k lt =
      let at = k.waits in
      let going = k.going in
      record {
        on = record { waits = ground arith; going = ground arith };
        more = ground arith;
        launched = ground (arith, length-stop_newest w.stopped);
      }
  attempt ready w k lt =
      let at = k.waits in
      let going = k.going in
      record {
        on = record { waits = ground arith; going = ground arith };
        more = ground arith;
        launched = ground (arith, length-stop_newest w.stopped);
      }

  -- How a run of attempts ends.
  pub record GaveUp (ls : List Launch) (w v : Watch) : Type 0 where
    pub over : v.phase ≡ ended
    pub used : v.restarts ≡ max_restarts
    pub says : v.last_error ≡ some (Failure.budget_exhausted max_restarts)
    pub launched : length v.stopped ≡ length w.stopped + engines ls

  given_up : (w : Watch) → GoesOn w → w.restarts ≡ max_restarts → GaveUp [] w (found_dead w)
  unfolding step observe
  given_up w k e =
      let at = k.waits in
      let going = k.going in
      record {
        over = ground arith;
        used = ground arith;
        says = ground arith;
        launched = ground arith;
      }

  one_more :
      (l : Launch) (ls : List Launch) (w v u : Watch)
      → Attempted l w v
      → GaveUp ls v u
      → GaveUp (l ∷ ls) w u
  one_more (failed refused) ls w v u a g = record {
    over = g.over;
    used = g.used;
    says = g.says;
    launched = omega (arith, a.launched, g.launched);
  }
  one_more (failed not_ready) ls w v u a g = record {
    over = g.over;
    used = g.used;
    says = g.says;
    launched = omega (arith, a.launched, g.launched);
  }
  one_more ready ls w v u a g = record {
    over = g.over;
    used = g.used;
    says = g.says;
    launched = omega (arith, a.launched, g.launched);
  }

  -- An engine that is found dead again and again is launched exactly as often as the budget still
  -- allows: each launch that does not raise before it has an engine adds one to the engines, and then
  -- the thread ends with the budget used up and says why.
  pub attempts-give_up :
      (ls : List Launch) (w : Watch)
      → w.phase ≡ waiting
      → w.stopping ≡ false
      → w.restarts + length ls ≡ max_restarts
      → GaveUp ls w (run max_restarts w (attempts ls))
  unfolding run
  attempts-give_up [] w at going sum =
      given_up w (record { waits = at; going = going }) (omega arith)
  attempts-give_up (failed refused ∷ ls) w at going sum =
      let a = attempt (failed refused) w (record { waits = at; going = going }) (omega arith) in
      let v = after (failed refused) w in
      let more = a.more in
      one_more (failed refused) ls w v _ a
        (attempts-give_up ls v a.on.waits a.on.going (omega arith))
  attempts-give_up (failed not_ready ∷ ls) w at going sum =
      let a = attempt (failed not_ready) w (record { waits = at; going = going }) (omega arith) in
      let v = after (failed not_ready) w in
      let more = a.more in
      one_more (failed not_ready) ls w v _ a
        (attempts-give_up ls v a.on.waits a.on.going (omega arith))
  attempts-give_up (ready ∷ ls) w at going sum =
      let a = attempt ready w (record { waits = at; going = going }) (omega arith) in
      let v = after ready w in
      let more = a.more in
      one_more ready ls w v _ a (attempts-give_up ls v a.on.waits a.on.going (omega arith))
