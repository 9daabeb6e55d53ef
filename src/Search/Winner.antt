-- ===== src/Search/Winner.antt =====
-- The trials that a test of polyserve/calibrate/search.py lets through are among those given.
use polyserve.Base.{inl, inr, Bool, List, [], ◌∷◌, keep_if, Memᴰ, Bool-cases}

module _ {A : Type 0} where
  pub Memᴰ-of_keep_if :
      {a : A} (test : A → Bool) (xs : List A) → Memᴰ a (keep_if test xs) → Memᴰ a xs
  Memᴰ-of_keep_if test [] m = elim m [ ]
  Memᴰ-of_keep_if test (x ∷ xs) m = elim (Bool-cases (test x)) [
    | inl e ↦ elim (rw e at m) [
      | Memᴰ.head p ↦ Memᴰ.head p
      | Memᴰ.tail k ↦ Memᴰ.tail (Memᴰ-of_keep_if test xs k)
    ]
    | inr e ↦ Memᴰ.tail (Memᴰ-of_keep_if test xs (rw e at m))
  ]
