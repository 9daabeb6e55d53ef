-- ===== src/Float/Lex.antt =====
-- Sort keys that are tuples: comparing one more component first keeps a weak order a weak order.
use polyserve.Base.{ℕ, ◌≡◌, Bool, true, false, if◌then◌else◌, ltb, ◌==◌, arith}
use polyserve.Base.Sort.{IsWeakOrder}
use polyserve.Float.{Float, below, same}
use polyserve.Float.Laws.{IsOrdered, below_asym, below_negtrans}

module _ {ℓ} {A : Type ℓ} {lt : A → A → Bool} (order : IsWeakOrder lt) where
  -- A number first, smaller numbers first.
  by_ℕ-asym :
      (a b : ℕ) (x y : A)
      → (if a == b then lt x y else ltb a b) ≡ true
      → (if b == a then lt y x else ltb b a) ≡ false
  by_ℕ-asym a b x y h = ground (arith, order.asym x y)

  by_ℕ-negtrans :
      (a b c : ℕ) (x y z : A)
      → (if a == b then lt x y else ltb a b) ≡ false
      → (if b == c then lt y z else ltb b c) ≡ false
      → (if a == c then lt x z else ltb a c) ≡ false
  by_ℕ-negtrans a b c x y z h k = ground (arith, order.negtrans x y z)

  pub by_ℕ : (g : A → ℕ) → IsWeakOrder (λ x y. if g x == g y then lt x y else ltb (g x) (g y))
  by_ℕ g = record {
    asym = λ x y. by_ℕ-asym (g x) (g y) x y;
    negtrans = λ x y z. by_ℕ-negtrans (g x) (g y) (g z) x y z;
  }

  -- A number first, larger numbers first.
  by_ℕ_desc-asym :
      (a b : ℕ) (x y : A)
      → (if a == b then lt x y else ltb b a) ≡ true
      → (if b == a then lt y x else ltb a b) ≡ false
  by_ℕ_desc-asym a b x y h = ground (arith, order.asym x y)

  by_ℕ_desc-negtrans :
      (a b c : ℕ) (x y z : A)
      → (if a == b then lt x y else ltb b a) ≡ false
      → (if b == c then lt y z else ltb c b) ≡ false
      → (if a == c then lt x z else ltb c a) ≡ false
  by_ℕ_desc-negtrans a b c x y z h k = ground (arith, order.negtrans x y z)

  pub by_ℕ_desc : (g : A → ℕ) → IsWeakOrder (λ x y. if g x == g y then lt x y else ltb (g y) (g x))
  by_ℕ_desc g = record {
    asym = λ x y. by_ℕ_desc-asym (g x) (g y) x y;
    negtrans = λ x y z. by_ℕ_desc-negtrans (g x) (g y) (g z) x y z;
  }

module _ {W : Type 0} ⦃f : Float W⦄ (o : IsOrdered W) where
  -- A float alone.
  pub by_float_only {ℓ} : {A : Type ℓ} (g : A → W) → IsWeakOrder (λ x y. below (g x) (g y))
  by_float_only g = record {
    asym = λ x y. below_asym o (g x) (g y);
    negtrans = λ x y z. below_negtrans o (g x) (g y) (g z);
  }

  module _ {ℓ} {A : Type ℓ} {lt : A → A → Bool} (order : IsWeakOrder lt) where
    by_float-asym :
        (a b : W) (x y : A)
        → (if same a b then lt x y else below a b) ≡ true
        → (if same b a then lt y x else below b a) ≡ false
    by_float-asym a b x y h = ground (arith, order.asym x y)

    by_float-negtrans :
        (a b c : W) (x y z : A)
        → (if same a b then lt x y else below a b) ≡ false
        → (if same b c then lt y z else below b c) ≡ false
        → (if same a c then lt x z else below a c) ≡ false
    by_float-negtrans a b c x y z h k = ground (
      arith,
      order.negtrans x y z,
      o.le_total a b,
      o.le_total b c,
      o.le_total a c,
      o.le_trans a b c,
      o.le_trans c b a,
      o.le_trans a c b,
      o.le_trans b a c,
      o.le_trans b c a,
      o.le_trans c a b,
    )

    pub by_float :
        (g : A → W) → IsWeakOrder (λ x y. if same (g x) (g y) then lt x y else below (g x) (g y))
    by_float g = record {
      asym = λ x y. by_float-asym (g x) (g y) x y;
      negtrans = λ x y z. by_float-negtrans (g x) (g y) (g z) x y z;
    }
