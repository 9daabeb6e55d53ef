-- ===== src/Float/Laws.antt =====
-- What the theorems suppose of float arithmetic, each part on its own.
use polyserve.Base.{ℕ, ◌≤◌, ◌≡◌, ◌⊎◌, true, false, arith}
use polyserve.Float.{Float, below, same, nought, from_ℕ}

-- IEEE comparison away from NaN: `<=` is a total preorder. (-0.0 and 0.0 are two equal values.)
pub record IsOrdered (W : Type 0) ⦃f : Float W⦄ : Type 0 where
  pub le_refl : (x : W) → f.le x x ≡ true
  pub le_trans : (x y z : W) → f.le x y ≡ true → f.le y z ≡ true → f.le x z ≡ true
  pub le_total : (x y : W) → (f.le x y ≡ true) ⊎ (f.le y x ≡ true)

-- The sign of a difference, a sum of zeros, and negation against the order.
pub record RespectsSign (W : Type 0) ⦃f : Float W⦄ : Type 0 where
  -- a - b is not positive when a <= b.
  pub sub_nonpos : (a b : W) → f.le a b ≡ true → below nought (f.sub a b) ≡ false
  pub add_nought : same (f.add (nought {W = W}) nought) nought ≡ true
  pub neg_antitone : (a b : W) → f.le a b ≡ true → f.le (f.neg b) (f.neg a) ≡ true

-- `round` to the nearest whole number does not cross a whole number, for those that a float holds.
pub record RoundsWithin (W : Type 0) ⦃f : Float W⦄ : Type 0 where
  pub within :
      (n m : ℕ) (x : W)
      → f.le (from_ℕ n) x ≡ true
      → f.le x (from_ℕ m) ≡ true
      → (n ≤ f.nearest x) × (f.nearest x ≤ m)

module _ {W : Type 0} ⦃f : Float W⦄ (o : IsOrdered W) where
  pub below_asym : (x y : W) → below x y ≡ true → below y x ≡ false
  below_asym x y h = ground arith

  -- Not below is at most, the other way round.
  le_of_not_below : (x y : W) → below x y ≡ false → f.le y x ≡ true
  le_of_not_below x y h = ground (arith, o.le_total x y)

  not_below_of_le : (x y : W) → f.le y x ≡ true → below x y ≡ false
  not_below_of_le x y h = ground arith

  pub below_negtrans : (x y z : W) → below x y ≡ false → below y z ≡ false → below x z ≡ false
  below_negtrans x y z h k =
      not_below_of_le x z (o.le_trans z y x (le_of_not_below y z k) (le_of_not_below x y h))
