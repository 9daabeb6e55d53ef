-- ===== src/Pipeline/Distinct.antt =====
-- What is left of a list of configurations in `search_space` of polyserve/pipeline.py: each key once.
use polyserve.Base.{
  String, ◌≡◌, refl, sym, subst, ◌⊎◌, inl, inr, Bool, true, false, not, ◌&&◌, List, [], ◌∷◌, All,
  All-imp, Memᴰ, Bool-cases, any, arith, str_eq,
}
use text.Mathlib.TextEquality.{eq_iff}
use polyserve.Float.{Float}
use polyserve.Models.{Config, key}
use polyserve.Pipeline.Variants.{runnable}

module _ {W : Type 0} ⦃f : Float W⦄ where
  -- No two configurations have one key.
  abbrev pub AreDistinct : List (Config W) → Type 0
  AreDistinct [] = Unit
  AreDistinct (c ∷ cs) = All (λ d. str_eq (key d) (key c) ≡ false) cs × AreDistinct cs

  -- A configuration with this key is in the list.
  abbrev pub IsKept : List (Config W) → Config W → Type 0
  IsKept cs c = (d : Config W) × Memᴰ d cs × (key d ≡ key c)

module _ {W : Type 0} ⦃f : Float W⦄ (fits : Config W → Bool) where
  -- A key that is not among the seen.
  abbrev pub IsNew : List String → Config W → Type 0
  IsNew seen c = any (str_eq (key c)) seen ≡ false

  pub runnable-All :
      (P : Config W → Type 0) (seen : List String) (cs : List (Config W))
      → All P cs
      → All P (runnable fits seen cs)
  unfolding runnable
  runnable-All P seen [] h = tt
  runnable-All P seen (c ∷ cs) h = elim (Bool-cases (not (any (str_eq (key c)) seen) && fits c)) [
    | inl e ↦ rw (e, runnable) (h.0, runnable-All P (key c ∷ seen) cs h.1)
    | inr e ↦ rw (e, runnable) (runnable-All P seen cs h.1)
  ]

  pub runnable-fits :
      (seen : List String) (cs : List (Config W))
      → All (λ c. (fits c ≡ true) × IsNew seen c) (runnable fits seen cs)
  unfolding runnable
  runnable-fits seen [] = tt
  runnable-fits seen (c ∷ cs) = elim (Bool-cases (not (any (str_eq (key c)) seen) && fits c)) [
    | inl e ↦
        rw (e, runnable)
          (
            (ground arith, ground arith),
            All-imp (λ d. (fits d ≡ true) × IsNew (key c ∷ seen) d) _ (λ d h. (h.0, ground arith)) _
                (runnable-fits (key c ∷ seen) cs),
          )
    | inr e ↦ rw (e, runnable) (runnable-fits seen cs)
  ]

  pub runnable-AreDistinct :
      (seen : List String) (cs : List (Config W)) → AreDistinct (runnable fits seen cs)
  unfolding runnable
  runnable-AreDistinct seen [] = tt
  runnable-AreDistinct seen (c ∷ cs) =
      elim (Bool-cases (not (any (str_eq (key c)) seen) && fits c)) [
        | inl e ↦
            rw (e, runnable)
              (
                All-imp (λ d. (fits d ≡ true) × IsNew (key c ∷ seen) d) _ (λ d h. ground arith) _
                    (runnable-fits (key c ∷ seen) cs),
                runnable-AreDistinct (key c ∷ seen) cs,
              )
        | inr e ↦ rw (e, runnable) (runnable-AreDistinct seen cs)
      ]

  runnable-head :
      (seen : List String) (c : Config W) (cs : List (Config W))
      → fits c ≡ true
      → (any (str_eq (key c)) seen ≡ true) ⊎ IsKept (runnable fits seen (c ∷ cs)) c
  unfolding runnable
  runnable-head seen c cs run = elim (Bool-cases (any (str_eq (key c)) seen)) [
    | inl old ↦ inl old
    | inr new ↦
        let e : not (any (str_eq (key c)) seen) && fits c ≡ true = ground arith in
        rw (e, runnable) (inr (c, Memᴰ.head refl, refl))
  ]

  later :
      (seen : List String) (c d : Config W) (cs : List (Config W))
      → (any (str_eq (key c)) (key d ∷ seen) ≡ true) ⊎ IsKept cs c
      → (any (str_eq (key c)) seen ≡ true) ⊎ IsKept (d ∷ cs) c
  later seen c d cs (inr (r, m, same)) = inr (r, Memᴰ.tail m, same)
  later seen c d cs (inl hit) = elim (Bool-cases (str_eq (key c) (key d))) [
    | inl same ↦ inr (d, Memᴰ.head refl, sym ((eq_iff (key c) (key d)).0 same))
    | inr other ↦ inl (ground arith)
  ]

  pub runnable_complete :
      (seen : List String) (cs : List (Config W)) (c : Config W)
      → fits c ≡ true
      → Memᴰ c cs
      → (any (str_eq (key c)) seen ≡ true) ⊎ IsKept (runnable fits seen cs) c
  unfolding runnable
  runnable_complete seen [] c run m = elim m [ ]
  runnable_complete seen (d ∷ cs) c run (Memᴰ.head same) =
      subst (λ x. (any (str_eq (key x)) seen ≡ true) ⊎ IsKept (runnable fits seen (d ∷ cs)) x)
        (sym same) (runnable-head seen d cs (subst (λ x. fits x ≡ true) same run))
  runnable_complete seen (d ∷ cs) c run (Memᴰ.tail m) =
      elim (Bool-cases (not (any (str_eq (key d)) seen) && fits d)) [
        | inl e ↦
            rw (e, runnable)
              (later seen c d (runnable fits (key d ∷ seen) cs)
                (runnable_complete (key d ∷ seen) cs c run m))
        | inr e ↦ rw (e, runnable) (runnable_complete seen cs c run m)
      ]
