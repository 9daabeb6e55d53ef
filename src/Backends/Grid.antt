-- ===== src/Backends/Grid.antt =====
-- About the contexts to try, `ctx_grid` of polyserve/backends/base.py.
use polyserve.Base.{
  ℕ, zero, suc, ◌≤◌, ◌<◌, ◌≡◌, refl, ◌⊎◌, inl, inr, Bool, true, List, [], ◌∷◌, All, All-of_members,
  All-or_list, All-of_Memᴰ, All-imp, All-keep_if, All-take, Memᴰ, Bool-cases, ltb, leb, ◌&&◌,
  keep_if, keep_if-passes, take, length, arith, or_list,
}
use polyserve.Backends.{ctx_grid, standard_sizes, grid_width}

-- Each member is below the later ones.
abbrev pub AreRising : List ℕ → Type 0
AreRising [] = Unit
AreRising (x ∷ xs) = All (λ y. x < y) xs × AreRising xs

keep_if-AreRising : (test : ℕ → Bool) (xs : List ℕ) → AreRising xs → AreRising (keep_if test xs)
keep_if-AreRising test [] h = tt
keep_if-AreRising test (x ∷ xs) h = elim (Bool-cases (test x)) [
  | inl e ↦ rw e (All-keep_if (λ y. x < y) test xs h.0, keep_if-AreRising test xs h.1)
  | inr e ↦ rw e (keep_if-AreRising test xs h.1)
]

-- What `take` leaves out of a rising list is above all that it takes, and it takes as many as it may.
take-smallest :
    (n c : ℕ) (xs : List ℕ)
    → AreRising xs
    → Memᴰ c xs
    → Memᴰ c (take n xs) ⊎ ((length (take n xs) ≡ n) × All (λ y. y < c) (take n xs))
take-smallest zero c xs h m = inr (refl, tt)
take-smallest (suc n) c [] h m = elim m [ ]
take-smallest (suc n) c (x ∷ xs) h (Memᴰ.head e) = inl (Memᴰ.head e)
take-smallest (suc n) c (x ∷ xs) h (Memᴰ.tail m) = elim (take-smallest n c xs h.1 m) [
  | inl taken ↦ inl (Memᴰ.tail taken)
  | inr (full, above) ↦ inr (omega arith, (All-of_Memᴰ (λ y. x < y) xs h.0 m, above))
]

standard-AreRising : AreRising standard_sizes
standard-AreRising = omega arith

-- Whether a context holds the workload and fits the model.
abbrev in_range : (max_pos min_ctx : ℕ) → ℕ → Bool
in_range max_pos min_ctx c = leb min_ctx c && leb c max_pos

module _ (max_pos min_ctx : ℕ) where
  abbrev pub sizes : List ℕ
  sizes = keep_if (in_range max_pos min_ctx) standard_sizes

  abbrev pub InRange : ℕ → Type 0
  InRange c = (min_ctx ≤ c) × (c ≤ max_pos)

  take-InRange : min_ctx ≤ max_pos → All InRange (take grid_width (or_list sizes (max_pos ∷ [])))
  take-InRange h = All-take InRange grid_width _ (
      All-or_list InRange sizes (max_pos ∷ [])
        (All-imp (λ c. in_range max_pos min_ctx c ≡ true) InRange (λ c e. ground arith) sizes
          (keep_if-passes (in_range max_pos min_ctx) standard_sizes))
        (omega arith))

  -- Left out only where three smaller ones are in.
  abbrev pub IsSmallest : List ℕ → ℕ → Type 0
  IsSmallest grid c = Memᴰ c grid ⊎ ((length grid ≡ grid_width) × All (λ d. d < c) grid)

  take-IsSmallest_sizes :
      (xs : List ℕ)
      → AreRising xs
      → All (IsSmallest (take grid_width (or_list xs (max_pos ∷ [])))) xs
  take-IsSmallest_sizes [] h = tt
  take-IsSmallest_sizes (x ∷ xs) h =
      All-of_members _ (x ∷ xs) (λ c m. take-smallest grid_width c (x ∷ xs) h m)

  take-le : (n : ℕ) (xs : List ℕ) → length (take n xs) ≤ n
  take-le zero xs = omega arith
  take-le (suc n) [] = omega arith
  take-le (suc n) (x ∷ xs) = omega (arith, take-le n xs)

  some_size : (xs : List ℕ) → 0 < length (take grid_width (or_list xs (max_pos ∷ [])))
  some_size [] = omega arith
  some_size (x ∷ xs) = omega arith

  -- A model that cannot hold the workload has no context in `ctx_grid`. Any other has between one and
  -- three, each of which holds the workload and fits the model, and they are the smallest: a standard
  -- size that holds the workload and fits the model is left out only where three smaller ones are in.
  pub ctx_grid-IsSmallest :
      ((max_pos < min_ctx) × (ctx_grid max_pos min_ctx ≡ []))
      ⊎ ((min_ctx ≤ max_pos)
          × (0 < length (ctx_grid max_pos min_ctx))
          × (length (ctx_grid max_pos min_ctx) ≤ 3)
          × All InRange (ctx_grid max_pos min_ctx)
          × All (IsSmallest (ctx_grid max_pos min_ctx)) sizes)
  unfolding ctx_grid
  ctx_grid-IsSmallest = elim (Bool-cases (ltb max_pos min_ctx)) [
    | inl over ↦ inl (ground arith, rw over refl)
    | inr fits ↦ inr (
      ground arith,
      rw fits (some_size sizes),
      rw fits (take-le grid_width _),
      rw fits (take-InRange (ground arith)),
      rw fits (
          take-IsSmallest_sizes sizes
            (keep_if-AreRising (in_range max_pos min_ctx) standard_sizes standard-AreRising)),
    )
  ]

  -- Every context of the grid holds the workload and fits the model.
  pub ctx_grid-InRange : All InRange (ctx_grid max_pos min_ctx)
  ctx_grid-InRange = elim ctx_grid-IsSmallest [ inl over ↦ rw over.1 tt | inr fits ↦ fits.3 ]
