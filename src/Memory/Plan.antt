-- ===== src/Memory/Plan.antt =====
-- `plan` keeps exactly the configurations that fit.
use polyserve.Base.{
  ℕ, ◌≡◌, refl, sym, ◌∙◌, ap, subst, ◌⊎◌, inl, inr, Bool, true, ◌&&◌, none, some, List, [], ◌∷◌,
  Memᴰ, All, All-imp, Option-cases, Bool-cases, arith,
}
use mathlib.Core.Option.{some-injective}
use polyserve.Float.{Float}
use polyserve.Models.{Config, HardwareDescriptor, MemoryEstimate, PreparedModel, weights_for}
use polyserve.Memory.{MemoryModel, estimate_with, estimate, host_fits, consider, plan}

and-left : (a b : Bool) → a && b ≡ true → a ≡ true
and-left a b h = ground arith

module _ {W : Type 0} ⦃f : Float W⦄ (hw : HardwareDescriptor) (model : PreparedModel)
    (mm : MemoryModel W) where
  -- The configuration has a known size and the estimate says that it fits, on the host too.
  pub record Fits (cfg : Config W) (est : MemoryEstimate) : Type 0 where
    pub size : ℕ
    pub sized : weights_for model cfg.quant ≡ some size
    pub estimated : estimate hw model mm cfg none ≡ some est
    pub feasible : est.feasible ≡ true
    pub on_host : host_fits hw model mm cfg size ≡ true

  consider-Fits :
      (cfg : Config W) (size : ℕ) (est : MemoryEstimate)
      → weights_for model cfg.quant ≡ some size
      → consider hw model mm cfg size ≡ some est
      → Fits cfg est
  unfolding consider estimate
  consider-Fits cfg size est e h =
      let verdict = (estimate_with hw model mm cfg none size).feasible in
      elim (Bool-cases (verdict && host_fits hw model mm cfg size)) [
        | inl both ↦
            let same : estimate_with hw model mm cfg none size ≡ est =
              some-injective _ _ (rw (both, consider) at h) in
            record {
              size = size;
              sized = e;
              estimated = rw (e, estimate) (ap some same);
              feasible = subst (λ x. x.feasible ≡ true) same (and-left verdict _ both);
              on_host = ground arith;
            }
        | inr either ↦ cc (rw (either, consider) at h)
      ]

  Fits-consider :
      (cfg : Config W) (size : ℕ) (est : MemoryEstimate)
      → weights_for model cfg.quant ≡ some size
      → Fits cfg est
      → consider hw model mm cfg size ≡ some est
  unfolding consider estimate
  Fits-consider cfg size est e h =
      let sizes : size ≡ h.size = some-injective _ _ (sym e ∙ h.sized) in
      let found : estimate_with hw model mm cfg none size ≡ est =
        some-injective _ _ (rw (e, estimate) at h.estimated) in
      let first : (estimate_with hw model mm cfg none size).feasible ≡ true =
        subst (λ x. x.feasible ≡ true) (sym found) h.feasible in
      let second : host_fits hw model mm cfg size ≡ true =
        subst (λ n. host_fits hw model mm cfg n ≡ true) (sym sizes) h.on_host in
      let both : (estimate_with hw model mm cfg none size).feasible
            && host_fits hw model mm cfg size
          ≡ true =
        ground arith in
      rw (both, consider) (ap some found)

  -- One step of the loop: the configuration is put before the rest, or left out.
  abbrev PlanStep : Config W → List (Config W) → List (Config W × MemoryEstimate) → Type 0
  PlanStep cfg configs kept =
      (size : ℕ) × (rest : List (Config W × MemoryEstimate)) × (weights_for model cfg.quant
        ≡ some size)
      × (plan hw model mm configs ≡ some rest)
      × (((est : MemoryEstimate) × (consider hw model mm cfg size ≡ some est)
            × (kept ≡ (cfg, est) ∷ rest))
          ⊎ ((consider hw model mm cfg size ≡ none) × (kept ≡ rest)))

  plan_step :
      (cfg : Config W) (configs : List (Config W)) (kept : List (Config W × MemoryEstimate))
      → plan hw model mm (cfg ∷ configs) ≡ some kept
      → PlanStep cfg configs kept
  unfolding plan
  plan_step cfg configs kept h = elim (Option-cases (weights_for model cfg.quant)) [
    | inl e ↦ cc (rw (e, plan) at h)
    | inr (size, e) ↦ elim (Option-cases (plan hw model mm configs)) [
      | inl p ↦ cc (rw (e, p, plan) at h)
      | inr (rest, p) ↦ elim (Option-cases (consider hw model mm cfg size)) [
        | inl c ↦ (size, rest, e, p, inr (c, sym (some-injective _ _ (rw (e, p, c, plan) at h))))
        | inr (est, c) ↦
            (size, rest, e, p, inl (est, c, sym (some-injective _ _ (rw (e, p, c, plan) at h))))
      ]
    ]
  ]

  -- Everything that `plan` keeps is a given configuration that fits, with its estimate.
  pub plan_sound :
      (configs : List (Config W)) (kept : List (Config W × MemoryEstimate))
      → plan hw model mm configs ≡ some kept
      → All (λ p. Memᴰ p.0 configs × Fits p.0 p.1) kept
  unfolding plan
  plan_sound [] kept h = subst (All _) (some-injective _ _ h) tt
  plan_sound (cfg ∷ configs) kept h =
      let (size, rest, e, p, outcome) = plan_step cfg configs kept h in
      let below =
        All-imp _ (λ q. Memᴰ q.0 (cfg ∷ configs) × Fits q.0 q.1) (λ q k. (Memᴰ.tail k.0, k.1)) rest
          (plan_sound configs rest p) in
      elim outcome [
        | inl (est, c, cut) ↦ rw cut ((Memᴰ.head refl, consider-Fits cfg size est e c), below)
        | inr (c, same) ↦ rw same below
      ]

  -- And every given configuration that fits is kept.
  pub plan_complete :
      (configs : List (Config W)) (kept : List (Config W × MemoryEstimate)) (cfg : Config W)
      (est : MemoryEstimate)
      → plan hw model mm configs ≡ some kept
      → Memᴰ cfg configs
      → Fits cfg est
      → Memᴰ (cfg, est) kept
  unfolding plan
  plan_complete [] kept cfg est h m fits = elim m [ ]
  plan_complete (first ∷ configs) kept cfg est h (Memᴰ.head same) fits =
      let (size, rest, e, p, outcome) = plan_step first configs kept h in
      let now = Fits-consider first size est e (subst (λ c. Fits c est) same fits) in
      elim outcome [
        | inl (est', c, cut) ↦
            let q : est ≡ est' = some-injective _ _ (sym now ∙ c) in
            rw cut (Memᴰ.head (λ i. (same i, q i)))
        | inr (c, _) ↦ cc
      ]
  plan_complete (first ∷ configs) kept cfg est h (Memᴰ.tail m) fits =
      let (size, rest, e, p, outcome) = plan_step first configs kept h in
      let below = plan_complete configs rest cfg est p m fits in
      elim outcome [ inl (est', c, cut) ↦ rw cut (Memᴰ.tail below) | inr (c, same) ↦ rw same below ]
