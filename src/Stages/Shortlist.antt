-- ===== src/Stages/Shortlist.antt =====
-- About the shortlist of `stage_confirm` of polyserve/calibrate/search.py.
use polyserve.Base.{ℕ, zero, suc, List, [], ◌∷◌, All, All-keep_if, not, all, str_eq}
use polyserve.Float.{Float, at_most, magnitude}
use polyserve.Models.{Config, key}
use polyserve.Search.{Env, Settings, Search}
use polyserve.Stages.{Strategy}
use polyserve.Stages.Triples.{IsSound, IsFine, Holds}
use polyserve.Stages.Given.{IsRunner}
use polyserve.Objectives.Rank.{Ranked}
use polyserve.Stages.Shapes.{if_All}
use polyserve.Stages.Fine.{ranking-Fine}
use polyserve.Stages.Contenders.{ranking}
use polyserve.Stages.Confirm.{shortlist_from, shortlist, candidates_from, least_score}

module _ {W X : Type 0} ⦃f : Float W⦄ (env : Env W X) (opts : Settings W) (n : ℕ)
    (feasible : List (Config W)) (runner : IsRunner n feasible env) (st : Strategy W X) where
  candidates_from-All :
      (ranked feas : List (Ranked W))
      → All (λ x. IsFine n feasible x.result) ranked
      → All (λ x. IsFine n feasible x.result) feas
      → All (λ x. IsFine n feasible x.result) (candidates_from st ranked feas)
  candidates_from-All [] [] r q = tt
  candidates_from-All (x ∷ xs) [] r q = (r.0, tt)
  candidates_from-All ranked (y ∷ ys) r q =
      let best = least_score st y.score ys in
      All-keep_if (λ x. IsFine n feasible x.result)
        (λ x. at_most (f.sub x.score best) (f.mul st.confirm_band (magnitude best))) (y ∷ ys) q

  shortlist_from-All :
      (left : ℕ) (chosen : List (Config W)) (xs : List (Ranked W))
      → All (λ x. IsFine n feasible x.result) xs
      → All (IsSound n feasible) (shortlist_from st left chosen xs)
  unfolding shortlist_from
  shortlist_from-All zero chosen xs h = tt
  shortlist_from-All (suc left) chosen [] h = tt
  shortlist_from-All (suc left) chosen (x ∷ xs) h =
      if_All (IsSound n feasible) (all (λ c. not (str_eq (key c) (key x.result.config))) chosen) _ _
        (h.0.0, shortlist_from-All left (x.result.config ∷ chosen) xs h.1)
        (shortlist_from-All (suc left) chosen xs h.1)

  pub shortlist-All :
      (s : Search W X) → Holds n feasible s → All (IsSound n feasible) (shortlist st s)
  unfolding shortlist
  shortlist-All s h =
      let ranked = ranking-Fine st n feasible s h in
      shortlist_from-All st.confirm_top [] _ (
        candidates_from-All (ranking st s) _ ranked
          (All-keep_if (λ x. IsFine n feasible x.result) (λ x. x.feasible) _ ranked))
