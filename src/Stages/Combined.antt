-- ===== src/Stages/Combined.antt =====
-- About `_leader_without_each` and `stage_combinations` of polyserve/calibrate/search.py.
use polyserve.Base.{
  All-map, ℕ, zero, suc, String, ◌≡◌, refl, sym, Bool, Option, none, some, List, [], ◌∷◌, All,
  All-append, All-keep_if, if◌then◌else◌, any, all, str_eq,
}
use polyserve.Base.Sort.{All-sort}
use polyserve.Float.{Float}
use polyserve.Models.{Config, Value, TrialResult, key}
use polyserve.Search.{Env, Settings, Search}
use polyserve.Stages.{Strategy, Spec}
use polyserve.Stages.Triples.{
  IsSound, Holds, Ensures, Goes, pure-Ensures, get-Ensures, bind-Ensures, then-Ensures, if-Ensures,
}
use polyserve.Stages.Sound.{trial_only-Ensures}
use polyserve.Stages.Given.{IsRunner}
use polyserve.Stages.Start.{AllSome}
use polyserve.Stages.Combine.{
  Choice, undone, undo_extra, undone_from, when, concat, apply_all, members, candidate,
  candidates_of, leader_without_each, worth_trying, to_combine, try_distinct, stage_combinations,
}
use polyserve.Stages.Delta.{Delta, apply}
use polyserve.Stages.Triples.{every}
use polyserve.Stages.Tuning.{like-IsSound, leader-Sound}
use polyserve.Stages.Shapes.{if_All}

if_one : {A : Type 0} (P : A → Type 0) (b : Bool) (a : A) → P a → All P (if b then a ∷ [] else [])
if_one P b a p = if_All P b (a ∷ []) [] (p, tt) tt

concat-All :
    {A : Type 0} (P : A → Type 0) (xss : List (List A)) → All (All P) xss → All P (concat xss)
unfolding concat
concat-All P [] h = tt
concat-All P (xs ∷ xss) h = All-append P xs (concat xss) h.0 (concat-All P xss h.1)

module _ {W : Type 0} ⦃f : Float W⦄ (n : ℕ) (feasible : List (Config W)) where
  when-All : (b : Bool) (c : Config W) → IsSound n feasible c → All (IsSound n feasible) (when b c)
  unfolding when
  when-All b c sound = if_one (IsSound n feasible) b c sound

  undone-All :
      (base lead : Config W) → IsSound n feasible lead → All (IsSound n feasible) (undone base lead)
  unfolding undone
  undone-All base lead sound =
      let like : (c : Config W)
          → c.gpu_memory_utilization ≡ lead.gpu_memory_utilization
          → c.backend ≡ lead.backend
          → c.quant ≡ lead.quant
          → IsSound n feasible c =
        λ c g b q. like-IsSound n feasible lead c sound (sym g) (sym b) (sym q) in
      concat-All (IsSound n feasible) _ (
        when-All _ _ (like _ refl refl refl),
        (
          when-All _ _ (like _ refl refl refl),
          (
            when-All _ _ (like _ refl refl refl),
            (
              when-All _ _ (like _ refl refl refl),
              (
                when-All _ _ (like _ refl refl refl),
                (
                  when-All _ _ (like _ refl refl refl),
                  (
                    All-map {A = String × Value} (λ e. Unit) (IsSound n feasible)
                        (λ e. undo_extra base lead e.0) (λ e u. like _ refl refl refl) _ (every _),
                    (when-All _ _ (like _ refl refl refl), (tt)),
                  ),
                ),
              ),
            ),
          ),
        ),
      )

  apply-IsSound : (c : Config W) (d : Delta) → IsSound n feasible c → IsSound n feasible (apply c d)
  unfolding apply
  apply-IsSound c d sound = like-IsSound n feasible c (apply c d) sound refl refl refl

module _ {W X : Type 0} ⦃f : Float W⦄ (env : Env W X) (opts : Settings W) (n : ℕ)
    (feasible : List (Config W)) (runner : IsRunner n feasible env) (st : Strategy W X) where
  apply_all-IsSound :
      (c : Config W) (cs : List (Choice st))
      → IsSound n feasible c
      → IsSound n feasible (apply_all st c cs)
  unfolding apply_all
  apply_all-IsSound c [] sound = sound
  apply_all-IsSound c (d ∷ cs) sound =
      apply_all-IsSound (apply c d.1) cs (apply-IsSound n feasible c d.1 sound)

  abbrev Candidate : W × Config W → Type 0
  Candidate wc = IsSound n feasible wc.1

  candidate-All :
      (s : Search W X) (base : Config W) (cs : List (Choice st))
      → IsSound n feasible base
      → All Candidate (candidate st env opts (suc n) s base cs)
  candidate-All s base [] sound = tt
  candidate-All s base (c ∷ cs) sound =
      if_one Candidate (worth_trying st env opts (suc n) s (apply_all st base (c ∷ cs)))
        (_, apply_all st base (c ∷ cs)) (apply_all-IsSound base (c ∷ cs) sound)

  candidates_of-All :
      (s : Search W X) (base : Config W) (combos : List (List (Option (Choice st))))
      → IsSound n feasible base
      → All Candidate (candidates_of st env opts (suc n) s base combos)
  unfolding candidates_of
  candidates_of-All s base [] sound = tt
  candidates_of-All s base (combo ∷ combos) sound =
      All-append Candidate _ _ (candidate-All s base (members st combo) sound)
        (candidates_of-All s base combos sound)

  undone_from-All :
      (base : Config W) (o : Option (TrialResult W))
      → AllSome (λ r. IsSound n feasible r.config) o
      → All (IsSound n feasible) (undone_from st env opts (suc n) base o)
  undone_from-All base none q = tt
  undone_from-All base (some lead) q = undone-All n feasible base lead.config q

  leader_without_each-Ensures :
      (base : Config W) (spec : Spec) (s : Search W X)
      → Holds n feasible s
      → Ensures n feasible
          (leader_without_each st env opts (suc n) base spec)
          s
          (λ cs t. All (IsSound n feasible) cs)
  unfolding leader_without_each
  leader_without_each-Ensures base spec s h =
      bind-Ensures n feasible _ _ s (λ o t. AllSome (λ r. IsSound n feasible r.config) o) _
        (leader-Sound env opts n feasible runner st (some base.backend) spec s h)
        (λ o t x q. pure-Ensures n feasible _ t _ x.holds (undone_from-All base o q))

  to_combine-All :
      (s : Search W X) (base : Config W) (spec : Spec) (without_each : List (Config W))
      → IsSound n feasible base
      → All (IsSound n feasible) without_each
      → All (IsSound n feasible) (to_combine st env opts (suc n) s base spec without_each)
  unfolding to_combine
  to_combine-All s base spec without_each sound q =
      All-append (IsSound n feasible) _ _ (All-keep_if (IsSound n feasible) _ without_each q) (
        All-map Candidate (IsSound n feasible) (λ c. c.1) (λ c q. q) _
          (All-sort _ Candidate _ (candidates_of-All s base _ sound)))

  try_distinct-Goes :
      (limit : ℕ) (tried : List String) (cs : List (Config W)) (s : Search W X)
      → All (IsSound n feasible) cs
      → Holds n feasible s
      → Goes n feasible (try_distinct st env opts (suc n) limit tried cs) s
  unfolding try_distinct
  try_distinct-Goes zero tried cs s all h = pure-Ensures n feasible tt s _ h tt
  try_distinct-Goes (suc limit) tried [] s all h = pure-Ensures n feasible tt s _ h tt
  try_distinct-Goes (suc limit) tried (c ∷ cs) s all h =
      if-Ensures n feasible (any (λ k. str_eq k (key c)) tried) _ _ s _
        (λ e. try_distinct-Goes (suc limit) tried cs s all.1 h)
        (λ e.
          then-Ensures n feasible _ _ s _
            (trial_only-Ensures env opts n feasible runner st "combine" c s all.0 h)
            (λ t x. try_distinct-Goes limit (key c ∷ tried) cs t all.1 x))

  pub stage_combinations-Goes :
      (base : Config W) (spec : Spec) (limit : Option ℕ) (s : Search W X)
      → IsSound n feasible base
      → Holds n feasible s
      → Goes n feasible (stage_combinations st env opts (suc n) base spec limit) s
  unfolding stage_combinations
  stage_combinations-Goes base spec limit s sound h =
      bind-Ensures n feasible _ _ s (λ cs t. All (IsSound n feasible) cs) _
        (leader_without_each-Ensures base spec s h)
        (λ cs t x q.
          get-Ensures n feasible _ t _
            (try_distinct-Goes _ [] _ t (to_combine-All t base spec cs sound q) x.holds))
