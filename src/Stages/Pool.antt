-- ===== src/Stages/Pool.antt =====
-- About the pool from which `StagedSearch.run` of polyserve/calibrate/search.py picks the winner.
use polyserve.Base.{
  All-of_members, ℕ, zero, suc, String, refl, Option, none, some, List, [], ◌∷◌, All, All-append,
  All-imp, All-of_Memᴰ, ◌≡◌, true,
}
use polyserve.Float.{Float}
use polyserve.Models.{Config, TrialResult, ok}
use polyserve.Search.{Env, Settings, Search}
use polyserve.Stages.{Strategy, pure, ◌>>=◌, pick_of}
use polyserve.Stages.Triples.{
  IsSound, IsFine, Holds, Ensures, pure-Ensures, get-Ensures, bind-Ensures,
}
use polyserve.Stages.Given.{IsRunner}
use polyserve.Stages.Start.{AllSome, AllSome-imp}
use polyserve.Stages.Picks.{pick_of-Ensures}
use polyserve.Base.{drop}
use polyserve.Power.Settings.{PowerSetting, with_power, default_setting}
use polyserve.Search.{eligible}
use polyserve.Stages.Triples.{Extends}
use polyserve.Stages.Fine.{eligible-All}
use polyserve.Stages.Tuning.{like-IsSound}
use polyserve.Stages.Fresh.{On, On-later, Fresh, Fresh-On}
use polyserve.Stages.Confirmed.{stage_confirm-Ensures}
use polyserve.Stages.Confirm.{stage_confirm}
use polyserve.Stages.Whole.{or_pool, final_pool, powered_by, powered}
use polyserve.Stages.Finish.{stage_power-Goes}

All-drop : {A : Type 0} (P : A → Type 0) (k : ℕ) (xs : List A) → All P xs → All P (drop k xs)
All-drop P zero xs h = h
All-drop P (suc k) [] h = tt
All-drop P (suc k) (x ∷ xs) h = All-drop P k xs h.1

module _ {W X : Type 0} ⦃f : Float W⦄ (n : ℕ) (feasible : List (Config W)) where
  results-On : (t : Search W X) → Holds n feasible t → All (On n feasible t) t.results
  results-On t h =
      All-of_members (On n feasible t) t.results
        (λ r m. (All-of_Memᴰ (IsFine n feasible) t.results h.fine m, m))

module _ {W X : Type 0} ⦃f : Float W⦄ (env : Env W X) (opts : Settings W) (n : ℕ)
    (feasible : List (Config W)) (runner : IsRunner n feasible env) (st : Strategy W X) where
  eligible-On :
      (refused : List (String × String)) (s t : Search W X)
      → Holds n feasible s
      → Extends n feasible s t
      → All (On n feasible t) (eligible refused s.results)
  eligible-On refused s t h x =
      On-later n feasible s t x _
        (eligible-All (On n feasible s) refused s.results (results-On n feasible s h))

  or_pool-On :
      (t : Search W X) (pool : List (TrialResult W)) (o : Option (List (TrialResult W)))
      → All (On n feasible t) pool
      → AllSome (All (On n feasible t)) o
      → All (On n feasible t) (or_pool st env opts (suc n) pool o)
  or_pool-On t pool none h q = h
  or_pool-On t pool (some []) h q = h
  or_pool-On t pool (some (r ∷ reps)) h q = q

  abbrev pub Pools : List (TrialResult W) → Search W X → Type 0
  Pools pool t = All (On n feasible t) pool

  pool_by-Ensures :
      (k : ℕ) (s : Search W X)
      → Holds n feasible s
      → Ensures n feasible
          (elim k [
            | zero ↦ pure (eligible st.refused s.results)
            | suc m ↦ stage_confirm st env opts (suc n) >>= λ reps.
                pure (or_pool st env opts (suc n) (eligible st.refused s.results) reps)
          ])
          s
          Pools
  pool_by-Ensures zero s h =
      pure-Ensures n feasible _ s Pools h
        (eligible-All (On n feasible s) st.refused s.results (results-On n feasible s h))
  pool_by-Ensures (suc k) s h =
      bind-Ensures n feasible _ _ s (λ o t. AllSome (All (Fresh n feasible s t)) o) Pools
        (stage_confirm-Ensures env opts n feasible runner st s h)
        (λ o t x q. pure-Ensures n feasible _ t Pools x.holds (
          or_pool-On t _ o (eligible-On st.refused s t h x) (
            AllSome-imp (All (Fresh n feasible s t)) (All (On n feasible t))
              (All-imp (Fresh n feasible s t) (On n feasible t) (Fresh-On n feasible s t)) o q)))

  pub final_pool-Ensures :
      (s : Search W X)
      → Holds n feasible s
      → Ensures n feasible (final_pool st env opts (suc n)) s Pools
  unfolding final_pool
  final_pool-Ensures s h = get-Ensures n feasible _ s Pools (pool_by-Ensures st.confirm_top s h)

  powered_by-Ensures :
      (pool : List (TrialResult W)) (o : Option (TrialResult W)) (s : Search W X)
      → Pools pool s
      → AllSome (λ r. IsSound n feasible r.config) o
      → Holds n feasible s
      → Ensures n feasible (powered_by st env opts (suc n) pool o) s Pools
  powered_by-Ensures pool none s q sound h = pure-Ensures n feasible pool s Pools h q
  powered_by-Ensures pool (some lead) s q sound h = get-Ensures n feasible _ s Pools (
      bind-Ensures n feasible _ _ s (λ u t. Unit) Pools
        (stage_power-Goes env opts n feasible runner st (with_power lead.config default_setting) s
          (like-IsSound n feasible lead.config (with_power lead.config default_setting) sound refl
            refl refl)
          h)
        (λ u t x v. get-Ensures n feasible _ t Pools (
          pure-Ensures n feasible _ t Pools x.holds (
            All-append (On n feasible t) pool _ (On-later n feasible s t x pool q)
              (All-drop (On n feasible t) _ t.results (results-On n feasible t x.holds))))))

  powered_in-Ensures :
      (points : List PowerSetting) (pool : List (TrialResult W)) (s : Search W X)
      → Pools pool s
      → Holds n feasible s
      → Ensures n feasible
          (elim points [
            | [] ↦ pure pool
            | p ∷ ps ↦ pick_of env opts st (suc n) pool >>= λ lead.
                powered_by st env opts (suc n) pool lead
          ])
          s
          Pools
  powered_in-Ensures [] pool s q h = pure-Ensures n feasible pool s Pools h q
  powered_in-Ensures (p ∷ ps) pool s q h =
      bind-Ensures n feasible _ _ s (λ o t. AllSome (λ r. On n feasible s r × (ok r ≡ true)) o)
        Pools (pick_of-Ensures env opts n feasible st (On n feasible s) (λ r h. h.0.1) pool s q h)
        (λ o t x won.
          powered_by-Ensures pool o t (On-later n feasible s t x pool q)
            (AllSome-imp _ (λ r. IsSound n feasible r.config) (λ r w. w.0.0.0) o won) x.holds)

  pub powered-Ensures :
      (pool : List (TrialResult W)) (s : Search W X)
      → Pools pool s
      → Holds n feasible s
      → Ensures n feasible (powered st env opts (suc n) pool) s Pools
  unfolding powered
  powered-Ensures = powered_in-Ensures st.power_points
