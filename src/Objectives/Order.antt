-- ===== src/Objectives/Order.antt =====
-- The two sort keys of polyserve/calibrate/objectives.py order trials: `before` and `preferred` are
-- strict weak orders, so that their sorts are in order.
use polyserve.Base.{◌≡◌, Bool, true, false, if◌then◌else◌, arith}
use polyserve.Base.Sort.{IsWeakOrder}
use polyserve.Float.{Float}
use polyserve.Float.Laws.{IsOrdered}
use polyserve.Float.Lex.{by_ℕ, by_ℕ_desc, by_float, by_float_only}
use polyserve.Objectives.Rank.{
  before, preferred, eq_Bool, key_violation, strategies, memory_setting, joules,
}

module _ {ℓ} {A : Type ℓ} {lt : A → A → Bool} (order : IsWeakOrder lt) where
  by_flag-asym :
      (a b : Bool) (x y : A)
      → (if eq_Bool a b then lt x y else a) ≡ true
      → (if eq_Bool b a then lt y x else b) ≡ false
  by_flag-asym a b x y h = ground (arith, order.asym x y)

  by_flag-negtrans :
      (a b c : Bool) (x y z : A)
      → (if eq_Bool a b then lt x y else a) ≡ false
      → (if eq_Bool b c then lt y z else b) ≡ false
      → (if eq_Bool a c then lt x z else a) ≡ false
  by_flag-negtrans a b c x y z h k = ground (arith, order.negtrans x y z)

  -- Those with the flag first.
  by_flag : (g : A → Bool) → IsWeakOrder (λ x y. if eq_Bool (g x) (g y) then lt x y else g x)
  by_flag g = record {
    asym = λ x y. by_flag-asym (g x) (g y) x y;
    negtrans = λ x y z. by_flag-negtrans (g x) (g y) (g z) x y z;
  }

module _ {W : Type 0} ⦃f : Float W⦄ (o : IsOrdered W) where
  pub before-IsWeakOrder : IsWeakOrder (before {W = W})
  unfolding before
  before-IsWeakOrder =
      by_flag (by_float o (by_float_only o (λ x. x.score)) key_violation) (λ x. x.feasible)

  pub preferred-IsWeakOrder : IsWeakOrder (preferred {W = W})
  unfolding preferred
  preferred-IsWeakOrder =
      by_ℕ
        (by_ℕ_desc
          (by_ℕ_desc
            (by_float o (by_float_only o joules) (λ x. f.neg (memory_setting x.result.config)))
            (λ x. x.result.config.batch))
          (λ x. x.result.config.ctx))
        (λ x. strategies x.result.config)
