-- ===== src/Objectives/Members.antt =====
-- Which trials `rank` lists.
use mathlib.Core.List.Perm
use polyserve.Base.{
  ◌≡◌, refl, sym, subst, inl, inr, true, not, ◌&&◌, List, [], ◌∷◌, map, Perm, keep_if, All, Memᴰ,
  All-append, All-keep_if, Bool-cases,
}
use polyserve.Base.Sort.{sort, sort-perm, sort-cons, All-sort, keep_if-perm}
use polyserve.Float.{Float}
use polyserve.Models.{TrialResult, LevelMetrics, level_ok, ok}
use polyserve.Objectives.Score.{Objective, Constraints, levels}
use polyserve.Objectives.Rank.{
  Ranked, before, preferred, joins, cluster_first, break_ties, at_least_two, ranked_at, best_level,
  rank,
}

module _ {W : Type 0} ⦃f : Float W⦄ where
  cluster_first-perm :
      (cons : Constraints W) (lead : Ranked W) (xs : List (Ranked W))
      → Perm (cluster_first cons lead xs) xs
  cluster_first-perm cons lead xs =
      Perm.trans (Perm.append_right _ (sort-perm preferred (keep_if (joins cons lead) xs)))
        (keep_if-perm (joins cons lead) xs)

  break_ties-perm : (cons : Constraints W) (xs : List (Ranked W)) → Perm (break_ties cons xs) xs
  unfolding break_ties
  break_ties-perm cons [] = Perm.rfl
  break_ties-perm cons (lead ∷ rest) =
      elim (Bool-cases (lead.feasible && at_least_two (keep_if (joins cons lead) (lead ∷ rest)))) [
        | inl e ↦ rw e (cluster_first-perm cons lead (lead ∷ rest))
        | inr e ↦ rw e Perm.rfl
      ]

  module _ (o : Objective) (cons : Constraints W) (results : List (TrialResult W)) where
    All-map-ranked_at :
        (r : TrialResult W) (ms : List (LevelMetrics W))
        → All (λ x. x.result ≡ r) (map (ranked_at o cons results r) ms)
    unfolding ranked_at
    All-map-ranked_at r [] = tt
    All-map-ranked_at r (m ∷ ms) = (refl, All-map-ranked_at r ms)

    result_of_head :
        (r : TrialResult W) (d : Ranked W) (xs : List (Ranked W))
        → d.result ≡ r
        → All (λ x. x.result ≡ r) xs
        → (elim xs as (λ _. Ranked W) [ [] ↦ d | x ∷ rest ↦ x ]).result ≡ r
    result_of_head r d [] e h = e
    result_of_head r d (x ∷ xs) e h = h.0

    -- A trial is scored as itself.
    result-best_level : (r : TrialResult W) → (best_level o cons results r).result ≡ r
    unfolding best_level
    result-best_level r =
        result_of_head r _ (sort before (map (ranked_at o cons results r) (levels r))) refl
          (All-sort before (λ x. x.result ≡ r) _ (All-map-ranked_at r (levels r)))

    map-result-best_level :
        (rs : List (TrialResult W)) → map (λ x. x.result) (map (best_level o cons results) rs) ≡ rs
    map-result-best_level [] = refl
    map-result-best_level (r ∷ rs) = cc (result-best_level r, map-result-best_level rs)

  -- `rank` lists every successful trial, each as often as it was given, and no other trial.
  pub rank-perm :
      (results : List (TrialResult W)) (o : Objective) (cons : Constraints W)
      → Perm (map (λ x. x.result) (rank results o cons)) (keep_if ok results)
  unfolding rank
  rank-perm results o cons =
      subst (Perm _) (map-result-best_level o cons (keep_if ok results) (keep_if ok results))
        (Perm.map _ (Perm.trans (break_ties-perm cons _) (sort-perm before _)))

  -- What holds of every trial at its best level holds of every member of the ranking.
  pub All-break_ties {κ} :
      (P : Ranked W → Type κ) (cons : Constraints W) (xs : List (Ranked W))
      → All P xs
      → All P (break_ties cons xs)
  unfolding break_ties
  All-break_ties P cons [] h = tt
  All-break_ties P cons (lead ∷ rest) h =
      elim (Bool-cases (lead.feasible && at_least_two (keep_if (joins cons lead) (lead ∷ rest)))) [
        | inl e ↦ rw e (
            All-append P _ _
              (All-sort preferred P _ (All-keep_if P (joins cons lead) (lead ∷ rest) h))
              (All-keep_if P (λ x. not (joins cons lead x)) (lead ∷ rest) h))
        | inr e ↦ rw e h
      ]

  -- A member of the ranking is a successful trial at one of its levels, with that level's score.
  pub record IsScored (results : List (TrialResult W)) (o : Objective) (cons : Constraints W)
      (x : Ranked W) : Type 0 where
    pub given : Memᴰ x.result results
    pub succeeded : ok x.result ≡ true
    pub level : Memᴰ x.metrics (levels x.result)
    pub scored : x ≡ ranked_at o cons (keep_if ok results) x.result x.metrics

  All-map_scored :
      (o : Objective) (cons : Constraints W) (good : List (TrialResult W)) (r : TrialResult W)
      (all : List (LevelMetrics W)) (ms : List (LevelMetrics W))
      → ((m : LevelMetrics W) → Memᴰ m ms → Memᴰ m all)
      → All
          (λ x. Memᴰ x.metrics all × (x ≡ ranked_at o cons good r x.metrics))
          (map (ranked_at o cons good r) ms)
  unfolding ranked_at
  All-map_scored o cons good r all [] h = tt
  All-map_scored o cons good r all (m ∷ ms) h =
      ((h m (Memᴰ.head refl), refl), All-map_scored o cons good r all ms (λ n k. h n (Memᴰ.tail k)))

  levels-cons :
      (r : TrialResult W)
      → (m : LevelMetrics W) × (ms : List (LevelMetrics W)) × (levels r ≡ m ∷ ms)
  unfolding levels
  levels-cons r = go (keep_if level_ok (map (λ e. e.1) r.metrics.by_concurrency))
    where
      go :
          (xs : List (LevelMetrics W))
          → (m : LevelMetrics W) × (ms : List (LevelMetrics W)) × (elim xs
                as (λ _. List (LevelMetrics W)) [ [] ↦ r.metrics.whole ∷ [] | m ∷ ms ↦ m ∷ ms ]
              ≡ m ∷ ms)
      go [] = (r.metrics.whole, [], refl)
      go (m ∷ ms) = (m, ms, refl)

  module _ (o : Objective) (cons : Constraints W) (good : List (TrialResult W))
      (r : TrialResult W) where
    abbrev AtLevel : Ranked W → Type 0
    AtLevel x = Memᴰ x.metrics (levels r) × (x ≡ ranked_at o cons good r x.metrics)

    sorted_levels :
        (z : Ranked W) × (zs : List (Ranked W)) × (sort before
            (map (ranked_at o cons good r) (levels r))
          ≡ z ∷ zs)
    sorted_levels =
        let (m, ms, e) = levels-cons r in
        rw e (sort-cons before (ranked_at o cons good r m) (map (ranked_at o cons good r) ms))

    -- The best level is the first of the trial's levels in the order of the sort key.
    pub best_level_first :
        (zs : List (Ranked W)) × (sort before (map (ranked_at o cons good r) (levels r))
          ≡ best_level o cons good r ∷ zs)
    unfolding best_level
    best_level_first = let (z, zs, e) = sorted_levels in (zs, rw (e, best_level))

    best_level-AtLevel : AtLevel (best_level o cons good r)
    best_level-AtLevel =
        let (zs, e) = best_level_first in
        let all : All AtLevel (sort before (map (ranked_at o cons good r) (levels r))) =
          All-sort before AtLevel _
            (All-map_scored o cons good r (levels r) (levels r) (λ m k. k)) in
        (rw e at all).0

  module _ (results : List (TrialResult W)) (o : Objective) (cons : Constraints W) where
    best_level-IsScored :
        (r : TrialResult W)
        → Memᴰ r results
        → ok r ≡ true
        → IsScored results o cons (best_level o cons (keep_if ok results) r)
    best_level-IsScored r m e =
        let best = best_level o cons (keep_if ok results) r in
        let same_trial = result-best_level o cons (keep_if ok results) r in
        let (at, scored) = best_level-AtLevel o cons (keep_if ok results) r in
        record {
          given = rw same_trial m;
          succeeded = rw same_trial e;
          level = rw same_trial at;
          scored =
              subst (λ q. best ≡ ranked_at o cons (keep_if ok results) q best.metrics)
                (sym same_trial) scored;
        }

    map-IsScored :
        (rs : List (TrialResult W))
        → ((r : TrialResult W) → Memᴰ r rs → Memᴰ r results)
        → All
            (IsScored results o cons)
            (map (best_level o cons (keep_if ok results)) (keep_if ok rs))
    map-IsScored [] h = tt
    map-IsScored (r ∷ rs) h = elim (Bool-cases (ok r)) [
      | inl e ↦ rw e (
        best_level-IsScored r (h r (Memᴰ.head refl)) e,
        map-IsScored rs (λ q k. h q (Memᴰ.tail k)),
      )
      | inr e ↦ rw e (map-IsScored rs (λ q k. h q (Memᴰ.tail k)))
    ]

    -- Every member of a ranking is a given, successful trial at one of its own levels.
    pub rank-IsScored : All (IsScored results o cons) (rank results o cons)
    unfolding rank
    rank-IsScored =
        All-break_ties (IsScored results o cons) cons _
          (All-sort before (IsScored results o cons) _ (map-IsScored results (λ r k. k)))
