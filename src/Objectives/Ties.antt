-- ===== src/Objectives/Ties.antt =====
-- What breaking ties may change: the picked trial against the best-scored one.
use polyserve.Base.{
  ◌≡◌, refl, subst, ◌⊎◌, inl, inr, true, false, not, ◌&&◌, List, [], ◌∷◌, ◌++◌, keep_if, All, Memᴰ,
  All-append, All-imp, keep_if-passes, Bool-cases, arith,
}
use polyserve.Base.Sort.{IsSorted, sort, sort-cons, sort-IsSorted, All-sort, irrefl}
use polyserve.Float.{Float}
use polyserve.Float.Laws.{IsOrdered}
use polyserve.Models.{TrialResult}
use polyserve.Objectives.Score.{Objective, Constraints}
use polyserve.Objectives.Rank.{Ranked, before, preferred, joins, break_ties, at_least_two, rank}
use polyserve.Objectives.Order.{before-IsWeakOrder, preferred-IsWeakOrder}
use polyserve.Objectives.Members.{All-break_ties}
use polyserve.Objectives.Feasible.{Memᴰ-break_ties}

module _ {W : Type 0} ⦃f : Float W⦄ where
  -- `w` is in the tie with `lead`, and none that is in it too is preferred to `w`.
  abbrev pub WinsTie : Constraints W → Ranked W → Ranked W → List (Ranked W) → Type 0
  WinsTie cons lead w xs =
      (joins cons lead w ≡ true)
      × All (λ x. (joins cons lead x ≡ false) ⊎ (preferred x w ≡ false)) xs

  -- `lead` is a member and no member comes before it. `w` wins the tie with it, or it is `lead` where
  -- `lead` breaks a constraint or there are not two in the tie.
  abbrev pub FirstByTies : Constraints W → Ranked W → Ranked W → List (Ranked W) → Type 0
  FirstByTies cons lead w xs =
      Memᴰ lead xs
      × All (λ x. before x lead ≡ false) xs
      × ((w ≡ lead) × ((lead.feasible && at_least_two (keep_if (joins cons lead) xs)) ≡ false)
          ⊎ WinsTie cons lead w xs)

module _ {W : Type 0} ⦃f : Float W⦄ (order : IsOrdered W) (cons : Constraints W)
    (lead : Ranked W) where
  abbrev Joins : Ranked W → Type 0
  Joins x = joins cons lead x ≡ true

  cluster_wins :
      (cluster others : List (Ranked W))
      → at_least_two cluster ≡ true
      → All Joins cluster
      → All (λ x. joins cons lead x ≡ false) others
      → (w : Ranked W) (rest : List (Ranked W)) → sort preferred cluster ++ others ≡ w ∷ rest
      → WinsTie cons lead w (sort preferred cluster ++ others)
  cluster_wins [] others two h k w rest e = cc
  cluster_wins (x ∷ xs) others two h k w rest e =
      let (z, zs, cut) = sort-cons preferred x xs in
      let first : z ≡ w = cc in
      let tie : All Joins (z ∷ zs) = rw cut at (All-sort preferred Joins (x ∷ xs) h) in
      let sorted : IsSorted preferred (z ∷ zs) =
        rw cut at (sort-IsSorted (preferred-IsWeakOrder order) (x ∷ xs)) in
      subst (λ q. WinsTie cons lead q (sort preferred (x ∷ xs) ++ others)) first
        (rw cut (
          tie.0,
          (
            inr (irrefl (preferred-IsWeakOrder order) z),
            All-append _ zs others
                (All-imp _ (λ y. (joins cons lead y ≡ false) ⊎ (preferred y z ≡ false))
                  (λ y p. inr p) zs sorted.0)
                (All-imp _ (λ y. (joins cons lead y ≡ false) ⊎ (preferred y z ≡ false))
                  (λ y p. inl p) others k),
          ),
        ))

  others_stay_out :
      (xs : List (Ranked W))
      → All (λ x. joins cons lead x ≡ false) (keep_if (λ x. not (joins cons lead x)) xs)
  others_stay_out xs =
      All-imp _ (λ x. joins cons lead x ≡ false) (λ x p. ground arith) _
        (keep_if-passes (λ x. not (joins cons lead x)) xs)

  break_ties_first :
      (rest : List (Ranked W)) (w : Ranked W) (ws : List (Ranked W))
      → IsSorted before (lead ∷ rest)
      → break_ties cons (lead ∷ rest) ≡ w ∷ ws
      → FirstByTies cons lead w (break_ties cons (lead ∷ rest))
  unfolding break_ties
  break_ties_first rest w ws sorted e = (
    unfold break_ties in Memᴰ-break_ties cons (lead ∷ rest) (Memᴰ.head refl),
    All-break_ties (λ x. before x lead ≡ false) cons (lead ∷ rest)
        (irrefl (before-IsWeakOrder order) lead, sorted.0),
    elim (Bool-cases (lead.feasible && at_least_two (keep_if (joins cons lead) (lead ∷ rest)))) [
      | inl h ↦ inr (
          rw h (
            cluster_wins (keep_if (joins cons lead) (lead ∷ rest)) _ (ground arith)
              (keep_if-passes (joins cons lead) (lead ∷ rest)) (others_stay_out (lead ∷ rest)) w ws
              (rw h at e)))
      | inr h ↦ inl (rw h (ground arith, h))
    ],
  )

module _ {W : Type 0} ⦃f : Float W⦄ (order : IsOrdered W) where
  first_of_sorted :
      (cons : Constraints W) (xs : List (Ranked W)) (w : Ranked W) (ws : List (Ranked W))
      → IsSorted before xs
      → break_ties cons xs ≡ w ∷ ws
      → (lead : Ranked W) × FirstByTies cons lead w (break_ties cons xs)
  unfolding break_ties
  first_of_sorted cons [] w ws sorted e = cc
  first_of_sorted cons (lead ∷ rest) w ws sorted e =
      (lead, break_ties_first order cons lead rest w ws sorted e)

  -- There is a trial that no other comes before by the objective. The first of the ranking is in the tie
  -- with it, and no other in that tie is preferred to the first; only where that trial breaks a constraint
  -- or has none to tie with is it the first itself.
  pub rank-FirstByTies :
      (results : List (TrialResult W)) (o : Objective) (cons : Constraints W) (w : Ranked W)
      (ws : List (Ranked W))
      → rank results o cons ≡ w ∷ ws
      → (lead : Ranked W) × FirstByTies cons lead w (rank results o cons)
  unfolding rank
  rank-FirstByTies results o cons w ws e =
      first_of_sorted cons _ w ws (sort-IsSorted (before-IsWeakOrder order) _) e
