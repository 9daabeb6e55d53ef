-- ===== src/Base/Sort.antt =====
-- `sorted(xs, key=…)` and `list.sort`: Python sorts stably, and for a strict weak order the stable
-- sort is unique, so insertion of each element before its equals gives the list that Python gives.
-- `lt` is the test `key(x) < key(y)`.
use mathlib.Core.Path.{◌≡◌, refl, sym, subst}
use mathlib.Core.Logic.{inl, inr}
use mathlib.Core.Bool.{Bool, true, false, not}
use mathlib.Core.List.{List, [], ◌∷◌, ◌++◌, Perm, perm_middle, Memᴰ}
use mathlib.Core.List.Perm
use native.Mathlib.Omega.{arith}
use polyserve.Base.Tests.{if◌then◌else◌, Bool-cases}
use polyserve.Base.Lists.{All, keep_if}

module _ {ℓ} {A : Type ℓ} (lt : A → A → Bool) where
  unfoldable pub insert : A → List A → List A
  insert x [] = x ∷ []
  insert x (y ∷ ys) = if lt y x then y ∷ insert x ys else x ∷ y ∷ ys

  unfoldable pub sort : List A → List A
  unfolding insert
  sort [] = []
  sort (x ∷ xs) = insert x (sort xs)

  pub insert-perm : (x : A) (ys : List A) → Perm (insert x ys) (x ∷ ys)
  unfolding insert
  insert-perm x [] = Perm.rfl
  insert-perm x (y ∷ ys) = elim (Bool-cases (lt y x)) [
    | inl e ↦ rw (e, insert) (Perm.trans (Perm.cons y (insert-perm x ys)) (Perm.swap x y ys))
    | inr e ↦ rw (e, insert) Perm.rfl
  ]

  pub sort-perm : (xs : List A) → Perm (sort xs) xs
  unfolding sort
  sort-perm [] = Perm.rfl
  sort-perm (x ∷ xs) = Perm.trans (insert-perm x (sort xs)) (Perm.cons x (sort-perm xs))

  -- No later member is below an earlier one.
  abbrev pub IsSorted : List A → Type 0
  IsSorted [] = Unit
  IsSorted (x ∷ xs) = All (λ y. lt y x ≡ false) xs × IsSorted xs

  pub All-insert {κ} : (P : A → Type κ) (x : A) (ys : List A) → P x → All P ys → All P (insert x ys)
  unfolding insert
  All-insert P x [] px h = (px, tt)
  All-insert P x (y ∷ ys) px h = elim (Bool-cases (lt y x)) [
    | inl e ↦ rw (e, insert) (h.0, All-insert P x ys px h.1)
    | inr e ↦ rw (e, insert) (px, h)
  ]

  pub All-sort {κ} : (P : A → Type κ) (xs : List A) → All P xs → All P (sort xs)
  unfolding sort
  All-sort P [] h = tt
  All-sort P (x ∷ xs) h = All-insert P x (sort xs) h.0 (All-sort P xs h.1)

-- What a comparison needs for its sort to put the list in order.
pub record IsWeakOrder {ℓ} {A : Type ℓ} (lt : A → A → Bool) : Type ℓ where
  pub asym : (x y : A) → lt x y ≡ true → lt y x ≡ false
  pub negtrans : (x y z : A) → lt x y ≡ false → lt y z ≡ false → lt x z ≡ false

module _ {ℓ} {A : Type ℓ} {lt : A → A → Bool} (order : IsWeakOrder lt) where
  pub irrefl : (x : A) → lt x x ≡ false
  irrefl x = ground (arith, order.asym x x)

  All-not-lt :
      (x y : A) (zs : List A)
      → lt y x ≡ false
      → All (λ z. lt z y ≡ false) zs
      → All (λ z. lt z x ≡ false) zs
  All-not-lt x y [] e h = tt
  All-not-lt x y (z ∷ zs) e h = (order.negtrans z y x h.0 e, All-not-lt x y zs e h.1)

  insert-IsSorted : (x : A) (ys : List A) → IsSorted lt ys → IsSorted lt (insert lt x ys)
  unfolding insert
  insert-IsSorted x [] s = (tt, tt)
  insert-IsSorted x (y ∷ ys) s = elim (Bool-cases (lt y x)) [
    | inl e ↦
        rw (e, insert)
          (
            All-insert lt (λ z. lt z y ≡ false) x ys (order.asym y x e) s.0,
            insert-IsSorted x ys s.1,
          )
    | inr e ↦ rw (e, insert) ((e, All-not-lt x y ys e s.0), s)
  ]

  pub sort-IsSorted : (xs : List A) → IsSorted lt (sort lt xs)
  unfolding sort
  sort-IsSorted [] = tt
  sort-IsSorted (x ∷ xs) = insert-IsSorted x (sort lt xs) (sort-IsSorted xs)

module _ {ℓ} {A : Type ℓ} where
  -- Those that pass a test, before those that do not.
  pub keep_if-perm :
      (test : A → Bool) (xs : List A) → Perm (keep_if test xs ++ keep_if (λ x. not (test x)) xs) xs
  keep_if-perm test [] = Perm.rfl
  keep_if-perm test (x ∷ xs) = elim (Bool-cases (test x)) [
    | inl e ↦ rw e (Perm.cons x (keep_if-perm test xs))
    | inr e ↦
        rw e (Perm.trans (perm_middle (keep_if test xs) _) (Perm.cons x (keep_if-perm test xs)))
  ]

module _ {ℓ} {A : Type ℓ} (lt : A → A → Bool) where
  Memᴰ-insert_self : (x : A) (ys : List A) → Memᴰ x (insert lt x ys)
  unfolding insert
  Memᴰ-insert_self x [] = Memᴰ.head refl
  Memᴰ-insert_self x (y ∷ ys) = elim (Bool-cases (lt y x)) [
    | inl e ↦ rw (e, insert) (Memᴰ.tail (Memᴰ-insert_self x ys))
    | inr e ↦ rw (e, insert) (Memᴰ.head refl)
  ]

  Memᴰ-insert : {a : A} (x : A) (ys : List A) → Memᴰ a ys → Memᴰ a (insert lt x ys)
  unfolding insert
  Memᴰ-insert x [] m = elim m [ ]
  Memᴰ-insert x (y ∷ ys) (Memᴰ.head p) = elim (Bool-cases (lt y x)) [
    | inl e ↦ rw (e, insert) (Memᴰ.head p)
    | inr e ↦ rw (e, insert) (Memᴰ.tail (Memᴰ.head p))
  ]
  Memᴰ-insert x (y ∷ ys) (Memᴰ.tail m) = elim (Bool-cases (lt y x)) [
    | inl e ↦ rw (e, insert) (Memᴰ.tail (Memᴰ-insert x ys m))
    | inr e ↦ rw (e, insert) (Memᴰ.tail (Memᴰ.tail m))
  ]

  pub Memᴰ-sort : {a : A} (xs : List A) → Memᴰ a xs → Memᴰ a (sort lt xs)
  unfolding sort
  Memᴰ-sort [] m = elim m [ ]
  Memᴰ-sort (x ∷ xs) (Memᴰ.head p) =
      subst (λ y. Memᴰ y (insert lt x (sort lt xs))) (sym p) (Memᴰ-insert_self x _)
  Memᴰ-sort (x ∷ xs) (Memᴰ.tail m) = Memᴰ-insert x _ (Memᴰ-sort xs m)

  -- A list that is not empty stays so.
  insert-cons : (x : A) (ys : List A) → (z : A) × (zs : List A) × (insert lt x ys ≡ z ∷ zs)
  unfolding insert
  insert-cons x [] = (x, [], refl)
  insert-cons x (y ∷ ys) = elim (Bool-cases (lt y x)) [
    | inl e ↦ (y, insert lt x ys, rw e)
    | inr e ↦ (x, y ∷ ys, rw e)
  ]

  pub sort-cons : (x : A) (xs : List A) → (z : A) × (zs : List A) × (sort lt (x ∷ xs) ≡ z ∷ zs)
  unfolding sort
  sort-cons x xs = insert-cons x (sort lt xs)
