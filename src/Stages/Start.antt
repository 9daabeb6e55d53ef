-- ===== src/Stages/Start.antt =====
-- Lemmas about `_baseline_candidates` and `_baseline` of polyserve/calibrate/search.py.
use polyserve.Base.{
  or_list, All-or_list, ℕ, ◌≡◌, refl, sym, ◌⊎◌, ap, subst, inl, inr, Bool, true, Option, none, some,
  List, [], ◌∷◌, All, All-keep_if, Bool-cases, arith, if◌then◌else◌, map, keep_if, any, ◌==◌, ltb,
  ◌&&◌, ◌||◌,
}
use polyserve.Base.Sort.{insert, sort, All-sort}
use polyserve.Float.{Float}
use polyserve.Models.{Config}
use polyserve.Stages.Quant.{nearest_group, baseline_candidates, baseline}
use polyserve.Stages.Groups.{gap, nearest_to, head_of, middle_of}

-- What holds of a value, if there is one.
abbrev pub AllSome : {A : Type 0} → (A → Type 0) → Option A → Type 0
AllSome P none = Unit
AllSome P (some a) = P a

module _ {A : Type 0} where
  pub AllSome-of : (P : A → Type 0) (o : Option A) → ((a : A) → o ≡ some a → P a) → AllSome P o
  AllSome-of P none h = tt
  AllSome-of P (some a) h = h a refl

  pub AllSome-imp :
      (P Q : A → Type 0) → ((a : A) → P a → Q a) → (o : Option A) → AllSome P o → AllSome Q o
  AllSome-imp P Q k none h = tt
  AllSome-imp P Q k (some a) h = k a h

  abbrev pub Starts : List A → Type 0
  Starts xs = (b : A) × (rest : List A) × (xs ≡ b ∷ rest)

  insert-Starts : (lt : A → A → Bool) (x : A) (ys : List A) → Starts (insert lt x ys)
  unfolding insert
  insert-Starts lt x [] = (x, [], refl)
  insert-Starts lt x (y ∷ ys) = elim (Bool-cases (lt y x)) [
    | inl e ↦ (y, insert lt x ys, rw (e, insert) refl)
    | inr e ↦ (x, y ∷ ys, rw (e, insert) refl)
  ]

  sort-Starts : (lt : A → A → Bool) (xs : List A) → Starts xs → Starts (sort lt xs)
  unfolding sort
  sort-Starts lt [] (b, rest, e) = cc
  sort-Starts lt (x ∷ xs) h = insert-Starts lt x (sort lt xs)

  pub keep_if-Starts :
      (test : A → Bool) (xs : List A) → any test xs ≡ true → Starts (keep_if test xs)
  keep_if-Starts test [] e = cc
  keep_if-Starts test (x ∷ xs) e = elim (Bool-cases (test x)) [
    | inl hit ↦ (x, keep_if test xs, rw hit refl)
    | inr miss ↦ rw miss (keep_if-Starts test xs (ground arith))
  ]

  or_list-Starts : (xs ys : List A) → Starts ys → Starts (or_list xs ys)
  or_list-Starts [] ys h = h
  or_list-Starts (x ∷ xs) ys h = (x, xs, refl)

  head_of-All :
      (P : A → Type 0) (xs : List A)
      → Starts xs
      → All P xs
      → (b : A) × ((head_of xs ≡ some b) × P b)
  head_of-All P [] (b, rest, e) h = cc
  head_of-All P (x ∷ xs) s h = (x, (refl, h.0))

nearest_to-cons :
    (batch best b : ℕ) (bs : List ℕ)
    → (nearest_to batch best (b ∷ bs) ≡ nearest_to batch b bs)
      ⊎ (nearest_to batch best (b ∷ bs) ≡ nearest_to batch best bs)
nearest_to-cons batch best b bs =
    let step : Bool → ℕ = λ t. nearest_to batch (if t then b else best) bs in
    elim (Bool-cases
      (ltb (gap b batch) (gap best batch) || (gap b batch == gap best batch && ltb b best))) [
        | inl e ↦ inl (ap step e)
        | inr e ↦ inr (ap step e)
      ]

eq_refl : (n : ℕ) → (n == n) ≡ true
eq_refl n = ground arith

module _ {W : Type 0} ⦃f : Float W⦄ where
  abbrev Found : ℕ → List (Config W) → ℕ → Type 0
  Found best cs near = ((best == near) || any (λ d. d.batch == near) cs) ≡ true

  Found-skip :
      (best near : ℕ) (c : Config W) (cs : List (Config W))
      → Found best cs near
      → Found best (c ∷ cs) near
  Found-skip best near c cs h = ground arith

  Found-next :
      (best near : ℕ) (c : Config W) (cs : List (Config W))
      → Found c.batch cs near
      → Found best (c ∷ cs) near
  Found-next best near c cs h = ground arith

  nearest_to-any :
      (batch best : ℕ) (cs : List (Config W))
      → Found best cs (nearest_to batch best (map (λ d. d.batch) cs))
  nearest_to-any batch best [] = ground (arith, eq_refl best)
  nearest_to-any batch best (c ∷ cs) =
      elim (nearest_to-cons batch best c.batch (map (λ d. d.batch) cs)) [
        | inl e ↦
            subst (Found best (c ∷ cs)) (sym e)
              (Found-next best _ c cs (nearest_to-any batch c.batch cs))
        | inr e ↦
            subst (Found best (c ∷ cs)) (sym e)
              (Found-skip best _ c cs (nearest_to-any batch best cs))
      ]

  nearest_group-Starts :
      (batch : ℕ) (cs : List (Config W)) → Starts cs → Starts (nearest_group batch cs)
  nearest_group-Starts batch [] h = h
  nearest_group-Starts batch (c ∷ cs) h =
      keep_if-Starts (λ d. d.batch == nearest_to batch c.batch (map (λ e. e.batch) cs)) (c ∷ cs)
        (nearest_to-any batch c.batch cs)

  nearest_group-All :
      (P : Config W → Type 0) (batch : ℕ) (cs : List (Config W))
      → All P cs
      → All P (nearest_group batch cs)
  nearest_group-All P batch [] h = h
  nearest_group-All P batch (c ∷ cs) h =
      All-keep_if P (λ d. d.batch == nearest_to batch c.batch (map (λ e. e.batch) cs)) (c ∷ cs) h

  pub baseline_candidates-All :
      (P : Config W → Type 0) (group : List (Config W))
      → All P group
      → All P (baseline_candidates group)
  unfolding baseline_candidates
  baseline_candidates-All P group h = All-sort _ P _ (
      All-or_list P _ _ (All-keep_if P _ group h)
        (nearest_group-All P _ _ (All-or_list P _ _ (All-keep_if P _ group h) h)))

  -- A group that is not empty has a baseline.
  pub baseline-All :
      (P : Config W → Type 0) (group : List (Config W))
      → Starts group
      → All P group
      → (b : Config W) × ((baseline group ≡ some b) × P b)
  unfolding baseline baseline_candidates
  baseline-All P group s h =
      let ctx = middle_of (map (λ c. c.ctx) group) in
      let batch = middle_of (map (λ c. c.batch) group) in
      let at_ctx = keep_if (λ c. c.ctx == ctx) group in
      let both = keep_if (λ c. c.ctx == ctx && c.batch == batch) group in
      let near = or_list at_ctx group in
      head_of-All P (baseline_candidates group)
        (sort-Starts _ (or_list both (nearest_group batch near))
          (or_list-Starts both _ (nearest_group-Starts batch near (or_list-Starts at_ctx group s))))
        (baseline_candidates-All P group h)
