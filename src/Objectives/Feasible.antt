-- ===== src/Objectives/Feasible.antt =====
-- Feasible trials come first in `rank`, and one is picked whenever one exists.
use polyserve.Base.{
  ◌≡◌, refl, sym, ◌⊎◌, inl, inr, Bool, true, false, not, ◌&&◌, List, [], ◌∷◌, ◌++◌, map, keep_if,
  All, Memᴰ, All-keep_if, All-imp, All-of_Memᴰ, Memᴰ-map, Memᴰ-keep_if, keep_if-passes,
  Memᴰ-append_left, Memᴰ-append_right, ap, ◌∙◌, Bool-cases, arith, some,
}
use polyserve.Base.Sort.{IsSorted, sort, sort-IsSorted, All-sort, Memᴰ-sort}
use polyserve.Float.{Float, same, nought}
use polyserve.Float.Laws.{IsOrdered}
use polyserve.Models.{TrialResult, LevelMetrics, ok}
use polyserve.Objectives.Score.{Objective, Constraints, levels, violation}
use polyserve.Objectives.Rank.{
  Ranked, before, preferred, joins, cluster_first, break_ties, at_least_two, ranked_at, best_level,
  rank,
}
use polyserve.Objectives.Order.{before-IsWeakOrder}
use polyserve.Objectives.Pick.{leader}
use polyserve.Objectives.Members.{IsScored, rank-IsScored, best_level_first}

module _ {W : Type 0} where
  abbrev pub Precedes : Ranked W → Ranked W → Type 0
  Precedes x y = (x.feasible ≡ true) ⊎ (y.feasible ≡ false)

  -- No infeasible trial stands before a feasible one.
  abbrev pub FeasibleFirst : List (Ranked W) → Type 0
  FeasibleFirst [] = Unit
  FeasibleFirst (x ∷ xs) = All (Precedes x) xs × FeasibleFirst xs

  abbrev IsFeasible : Ranked W → Type 0
  IsFeasible x = x.feasible ≡ true

  FeasibleFirst-append :
      (xs ys : List (Ranked W)) → All IsFeasible xs → FeasibleFirst ys → FeasibleFirst (xs ++ ys)
  FeasibleFirst-append [] ys h k = k
  FeasibleFirst-append (x ∷ xs) ys h k = (All-always (xs ++ ys), FeasibleFirst-append xs ys h.1 k)
    where
      All-always : (zs : List (Ranked W)) → All (Precedes x) zs
      All-always [] = tt
      All-always (z ∷ zs) = (inl h.0, All-always zs)

  FeasibleFirst-keep_if :
      (test : Ranked W → Bool) (xs : List (Ranked W))
      → FeasibleFirst xs
      → FeasibleFirst (keep_if test xs)
  FeasibleFirst-keep_if test [] h = tt
  FeasibleFirst-keep_if test (x ∷ xs) h = elim (Bool-cases (test x)) [
    | inl e ↦ rw e (All-keep_if (Precedes x) test xs h.0, FeasibleFirst-keep_if test xs h.1)
    | inr e ↦ rw e (FeasibleFirst-keep_if test xs h.1)
  ]

  -- The first is feasible if any is.
  head_feasible :
      {y : Ranked W} (x : Ranked W) (xs : List (Ranked W))
      → FeasibleFirst (x ∷ xs)
      → Memᴰ y (x ∷ xs)
      → y.feasible ≡ true
      → x.feasible ≡ true
  head_feasible x xs h (Memᴰ.head p) e = cc
  head_feasible x xs h (Memᴰ.tail m) e = ground (arith, All-of_Memᴰ (Precedes x) xs h.0 m)

module _ {W : Type 0} ⦃f : Float W⦄ where
  before→Precedes : (x y : Ranked W) → before y x ≡ false → Precedes x y
  unfolding before
  before→Precedes x y h = ground arith

  IsSorted→FeasibleFirst : (xs : List (Ranked W)) → IsSorted before xs → FeasibleFirst xs
  IsSorted→FeasibleFirst [] h = tt
  IsSorted→FeasibleFirst (x ∷ xs) h =
      (All-imp _ (Precedes x) (before→Precedes x) xs h.0, IsSorted→FeasibleFirst xs h.1)

  joins-IsFeasible :
      (cons : Constraints W) (lead x : Ranked W) → joins cons lead x ≡ true → IsFeasible x
  unfolding joins
  joins-IsFeasible cons lead x h = ground arith

  break_ties-FeasibleFirst :
      (cons : Constraints W) (xs : List (Ranked W))
      → FeasibleFirst xs
      → FeasibleFirst (break_ties cons xs)
  unfolding break_ties
  break_ties-FeasibleFirst cons [] h = tt
  break_ties-FeasibleFirst cons (lead ∷ rest) h =
      elim (Bool-cases (lead.feasible && at_least_two (keep_if (joins cons lead) (lead ∷ rest)))) [
        | inl e ↦ rw e (
            FeasibleFirst-append _ _
              (All-sort preferred IsFeasible _ (
                All-imp _ IsFeasible (joins-IsFeasible cons lead) _
                  (keep_if-passes (joins cons lead) (lead ∷ rest))))
              (FeasibleFirst-keep_if (λ x. not (joins cons lead x)) (lead ∷ rest) h))
        | inr e ↦ rw e h
      ]

module _ {W : Type 0} ⦃f : Float W⦄ (order : IsOrdered W) where
  sorted_FeasibleFirst : (xs : List (Ranked W)) → FeasibleFirst (sort before xs)
  sorted_FeasibleFirst xs = IsSorted→FeasibleFirst _ (sort-IsSorted (before-IsWeakOrder order) xs)

  -- In a ranking no trial that breaks the constraint stands before one that meets it.
  rank-FeasibleFirst :
      (results : List (TrialResult W)) (o : Objective) (cons : Constraints W)
      → FeasibleFirst (rank results o cons)
  unfolding rank
  rank-FeasibleFirst results o cons = break_ties-FeasibleFirst cons _ (sorted_FeasibleFirst _)

module _ {W : Type 0} ⦃f : Float W⦄ where
  Memᴰ-cluster_first :
      {y : Ranked W} (cons : Constraints W) (lead : Ranked W) (xs : List (Ranked W))
      → Memᴰ y xs
      → Memᴰ y (cluster_first cons lead xs)
  Memᴰ-cluster_first {y} cons lead xs m = elim (Bool-cases (joins cons lead y)) [
    | inl e ↦ Memᴰ-append_left _ _ (Memᴰ-sort preferred _ (Memᴰ-keep_if (joins cons lead) xs e m))
    | inr e ↦
        Memᴰ-append_right _ _ (Memᴰ-keep_if (λ x. not (joins cons lead x)) xs (ground (arith, e)) m)
  ]

  pub Memᴰ-break_ties :
      {y : Ranked W} (cons : Constraints W) (xs : List (Ranked W))
      → Memᴰ y xs
      → Memᴰ y (break_ties cons xs)
  unfolding break_ties
  Memᴰ-break_ties cons [] m = m
  Memᴰ-break_ties cons (lead ∷ rest) m =
      elim (Bool-cases (lead.feasible && at_least_two (keep_if (joins cons lead) (lead ∷ rest)))) [
        | inl e ↦ rw e (Memᴰ-cluster_first cons lead (lead ∷ rest) m)
        | inr e ↦ rw e m
      ]

  -- The trial that `leader` returns, with the level that it is scored at.
  abbrev pub Leads : List (TrialResult W) → Objective → Constraints W → Ranked W → Type 0
  Leads results o cons w = (leader results o cons ≡ some w.result) × IsScored results o cons w

  first-Leads :
      {y : Ranked W} (results : List (TrialResult W)) (o : Objective) (cons : Constraints W)
      (xs : List (Ranked W))
      → rank results o cons ≡ xs
      → Memᴰ y xs
      → All (IsScored results o cons) xs
      → FeasibleFirst xs
      → y.feasible ≡ true
      → (w : Ranked W) × Leads results o cons w × (w.feasible ≡ true)
  unfolding leader
  first-Leads results o cons [] e m s h fy = elim m [ ]
  first-Leads results o cons (x ∷ xs) e m s h fy =
      (x, (rw (e, leader), s.0), head_feasible x xs h m fy)

  module _ (order : IsOrdered W) (results : List (TrialResult W)) (o : Objective)
      (cons : Constraints W) (r : TrialResult W) (m : LevelMetrics W) where
    best_level_feasible :
        Memᴰ m (levels r)
        → same (violation o cons (keep_if ok results) m) nought ≡ true
        → (best_level o cons (keep_if ok results) r).feasible ≡ true
    unfolding ranked_at
    best_level_feasible at meets =
        let (zs, e) = best_level_first o cons (keep_if ok results) r in
        let found : Memᴰ (ranked_at o cons (keep_if ok results) r m)
            (best_level o cons (keep_if ok results) r ∷ zs) =
          rw e at (
            Memᴰ-sort before _
              (Memᴰ-map (ranked_at o cons (keep_if ok results) r) (levels r) at)) in
        head_feasible _ zs
          (rw e at
            (sorted_FeasibleFirst order (map (ranked_at o cons (keep_if ok results) r) (levels r))))
          found meets

    -- If a successful trial has a level that meets the constraints, then the picked trial is a given,
    -- successful one, and the level that it is scored at meets them too.
    pub leader_meets_constraints :
        Memᴰ r results
        → ok r ≡ true
        → Memᴰ m (levels r)
        → same (violation o cons (keep_if ok results) m) nought ≡ true
        → (w : Ranked W) × Leads results o cons w
          × (same (violation o cons (keep_if ok results) w.metrics) nought ≡ true)
    unfolding ranked_at
    leader_meets_constraints given succeeded at meets =
        let good = keep_if ok results in
        let sorted_in =
          Memᴰ-sort before _
            (Memᴰ-map (best_level o cons good) good (Memᴰ-keep_if ok results succeeded given)) in
        let (w, leads, feasible) =
          first-Leads {y = best_level o cons good r} results o cons (rank results o cons) refl
            (unfold rank in Memᴰ-break_ties cons _ sorted_in) (rank-IsScored results o cons)
            (rank-FeasibleFirst order results o cons) (best_level_feasible at meets) in
        (w, leads, sym (ap (λ x. x.feasible) leads.1.scored) ∙ feasible)
