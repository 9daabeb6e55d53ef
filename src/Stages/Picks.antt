-- ===== src/Stages/Picks.antt =====
-- `pick` and `_leader` of polyserve/calibrate as the stages call them: they raise nothing on trials that
-- have their times.
use polyserve.Base.{
  ℕ, suc, String, ◌≡◌, refl, ◌&&◌, true, Option, none, some, List, [], ◌∷◌, ◌++◌, All, All-keep_if,
  All-of_Memᴰ, is_some, arith,
}
use polyserve.Float.{Float}
use polyserve.Models.{Config, TrialResult, ok}
use polyserve.Objectives.Rank.{Ranked, rank}
use polyserve.Objectives.Members.{IsScored, rank-IsScored}
use polyserve.Objectives.Pick.{pick, relaxed_note, energy_note, level_note}
use polyserve.Search.{Env, Settings, Search}
use polyserve.Stages.{Strategy, Spec, pick_of, leader_of, matches_backend, matches_spec}
use polyserve.Stages.Triples.{IsFine, IsTimed, Holds, Ensures, Extends-refl}
use polyserve.Stages.Start.{AllSome}

module _ {W X : Type 0} ⦃f : Float W⦄ (st : Strategy W X) (P : TrialResult W → Type 0)
    (timed : (r : TrialResult W) → P r → IsTimed r) where
  -- `pick` returns: the trial that it takes, if any, is one of those given, and succeeded.
  abbrev pub Picks : List (TrialResult W) → Type 0
  Picks pool =
      (w : Option (TrialResult W)) × (notes : List String) × (pick pool st.objective st.constraints
        ≡ some (w, notes))
      × AllSome (λ r. P r × (ok r ≡ true)) w

  abbrev pick_at : Ranked W → Option W → Option (Option (TrialResult W) × List String)
  pick_at x none = none
  pick_at x (some v) = some (
    some x.result,
    relaxed_note st.objective x ++ (energy_note st.objective x ++ level_note x.metrics v ∷ []),
  )

  at_time :
      (x : Ranked W) (o : Option W)
      → is_some o ≡ true
      → (notes : List String) × (pick_at x o ≡ some (some x.result, notes))
  at_time x none e = absurd (ground arith)
  at_time x (some v) e = (_, refl)

  rank-Picks :
      (pool : List (TrialResult W)) (xs : List (Ranked W))
      → All P pool
      → rank pool st.objective st.constraints ≡ xs
      → All (IsScored pool st.objective st.constraints) xs
      → Picks pool
  unfolding pick
  rank-Picks pool [] q e scored = (none, "no successful trials" ∷ [], rw (e, pick) refl, tt)
  rank-Picks pool (x ∷ xs) q e scored =
      let on = All-of_Memᴰ P pool q scored.0.given in
      let times =
        All-of_Memᴰ (λ m. is_some m.ttft_ms ≡ true) _ ((timed x.result on).timed scored.0.succeeded)
          scored.0.level in
      let (notes, g) = at_time x x.metrics.ttft_ms times in
      (some x.result, notes, rw (e, pick) g, (on, scored.0.succeeded))

  -- `pick` raises nothing: the trial that it takes has a time at the level that it is scored at.
  pub pick-Picks : (pool : List (TrialResult W)) → All P pool → Picks pool
  pick-Picks pool q = rank-Picks pool _ q refl (rank-IsScored pool st.objective st.constraints)

module _ {W X : Type 0} ⦃f : Float W⦄ (env : Env W X) (opts : Settings W) (n : ℕ)
    (feasible : List (Config W)) (st : Strategy W X) where
  pub pick_of-Ensures :
      (P : TrialResult W → Type 0)
      → ((r : TrialResult W) → P r → IsTimed r)
      → (pool : List (TrialResult W)) (s : Search W X) → All P pool
      → Holds n feasible s
      → Ensures n feasible
          (pick_of env opts st (suc n) pool)
          s
          (λ o t. AllSome (λ r. P r × (ok r ≡ true)) o)
  unfolding pick_of
  pick_of-Ensures P timed pool s q h =
      let (w, notes, e, all) = pick-Picks st P timed pool q in
      record {
        value = w;
        after = s;
        runs = rw (e, pick_of) refl;
        extends = Extends-refl n feasible s h;
        result = all;
      }

  pub leader_of-Ensures :
      (backend : Option String) (spec : Spec) (s : Search W X)
      → Holds n feasible s
      → Ensures n feasible
          (leader_of env opts st (suc n) backend spec)
          s
          (λ o t. AllSome (λ r. IsFine n feasible r × (ok r ≡ true)) o)
  unfolding leader_of
  leader_of-Ensures backend spec s h =
      let e =
        pick_of-Ensures (IsFine n feasible) (λ r q. q.1) _ s
          (All-keep_if (IsFine n feasible)
            (λ q.
              matches_backend backend q.config.backend && matches_spec spec q.config.spec_decode)
            s.results h.fine)
          h in
      record {
        value = e.value;
        after = e.after;
        runs = e.runs;
        extends = e.extends;
        result = e.result;
      }
