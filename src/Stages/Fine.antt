-- ===== src/Stages/Fine.antt =====
-- What a ranking keeps of the trials that it is made of (polyserve/calibrate/search.py).
use polyserve.Base.{String, not, List, [], ◌∷◌, All, All-imp, All-of_Memᴰ, All-keep_if, ℕ}
use polyserve.Float.{Float}
use polyserve.Models.{Config, TrialResult}
use polyserve.Objectives.Score.{Objective, Constraints}
use polyserve.Objectives.Rank.{rank}
use polyserve.Objectives.Members.{IsScored, rank-IsScored}
use polyserve.Search.{Search, is_refused, eligible}
use polyserve.Stages.{Strategy}
use polyserve.Stages.Contenders.{ranking}
use polyserve.Stages.Triples.{IsFine, Holds}

module _ {W : Type 0} ⦃f : Float W⦄ (P : TrialResult W → Type 0) where
  pub rank-All :
      (results : List (TrialResult W)) (o : Objective) (cons : Constraints W)
      → All P results
      → All (λ x. P x.result) (rank results o cons)
  rank-All results o cons h =
      All-imp (IsScored results o cons) (λ x. P x.result) (λ x s. All-of_Memᴰ P results h s.given)
        (rank results o cons) (rank-IsScored results o cons)

  pub eligible-All :
      (refused : List (String × String)) (results : List (TrialResult W))
      → All P results
      → All P (eligible refused results)
  unfolding eligible
  eligible-All [] results h = h
  eligible-All (p ∷ ps) results h = All-keep_if P (λ q. not (is_refused (p ∷ ps) q)) results h

module _ {W X : Type 0} ⦃f : Float W⦄ (st : Strategy W X) (n : ℕ) (feasible : List (Config W)) where
  pub ranking-Fine :
      (s : Search W X) → Holds n feasible s → All (λ x. IsFine n feasible x.result) (ranking st s)
  unfolding ranking
  ranking-Fine s h =
      rank-All (IsFine n feasible) _ st.objective st.constraints
        (eligible-All (IsFine n feasible) st.refused s.results h.fine)
