-- ===== src/Search/Retry.antt =====
-- The retries of a trial that ran out of memory at start-up come to an end.
use polyserve.Base.{
  ℕ, zero, suc, String, ◌≡◌, refl, ap, subst, inl, inr, Bool, true, false, not, ◌||◌, Option, none,
  some, Bool-cases, Option-cases, arith, is_some,
}
use mathlib.Core.Option.{some-injective}
use polyserve.Float.{Float}
use polyserve.Models.{Config, TrialResult, key, lookup}
use polyserve.Search.Ran.{opened, measured}
use polyserve.Search.{
  Env, Settings, Search, lower, too_low, ran_out, allowed, with_gmu, unless_done, retry_from,
  headroom_retry, over_budget, run, with_retry, recorded, with_skip, not_run,
}

module _ {W : Type 0} ⦃f : Float W⦄ where
  -- Lowering the reservation step by step passes the floor within `n` more steps; an engine that
  -- reserves nothing is not retried.
  abbrev pub ends_within : ℕ → Option W → Bool
  ends_within n none = true
  ends_within zero (some gmu) = too_low (lower gmu)
  ends_within (suc n) (some gmu) = too_low (lower gmu) || ends_within n (some (lower gmu))

  closer :
      (n : ℕ) (gmu : W) {o : Option W}
      → ends_within n (some gmu) ≡ true
      → too_low (lower gmu) ≡ false
      → some (lower gmu) ≡ o
      → (m : ℕ) × (n ≡ suc m) × (ends_within m o ≡ true)
  closer zero gmu e high same = absurd (ground arith)
  closer (suc m) gmu e high same =
      (m, refl, subst (λ o. ends_within m o ≡ true) same (ground arith))

  pub ends_within-more :
      (n : ℕ) (o : Option W) → ends_within n o ≡ true → ends_within (suc n) o ≡ true
  ends_within-more n none e = refl
  ends_within-more zero (some gmu) e = ground arith
  ends_within-more (suc n) (some gmu) e = elim (Bool-cases (too_low (lower gmu))) [
    | inl low ↦ rw low refl
    | inr high ↦ rw high (ends_within-more n (some (lower gmu)) (rw high at e))
  ]

  module _ {X : Type 0} (env : Env W X) (opts : Settings W) where
    unless_done-same :
        (cfg retry : Config W) (s : Search W X)
        → unless_done env opts cfg s ≡ some retry
        → cfg ≡ retry
    unfolding unless_done
    unless_done-same cfg retry s h =
        elim (Bool-cases
          (is_some (lookup (key cfg) s.done) || not (allowed opts.feasible_fn cfg))) [
            | inl e ↦ cc (rw (e, unless_done) at h)
            | inr e ↦ some-injective _ _ (rw (e, unless_done) at h)
          ]

    -- A retry reserves less, and is closer to the floor.
    pub retry_from-closer :
        (n : ℕ) (o : Option W) (cfg retry : Config W) (res : TrialResult W) (s : Search W X)
        → ends_within n o ≡ true
        → retry_from env opts o cfg res s ≡ some retry
        → (m : ℕ) × (n ≡ suc m) × (ends_within m retry.gpu_memory_utilization ≡ true)
    retry_from-closer n none cfg retry res s e h = cc
    retry_from-closer n (some gmu) cfg retry res s e h =
        elim (Bool-cases (not (ran_out res) || too_low (lower gmu))) [
          | inl out ↦ cc (rw out at h)
          | inr on ↦ closer n gmu e (ground arith) (
              ap (λ c. c.gpu_memory_utilization)
                (unless_done-same (with_gmu (lower gmu) cfg) retry s (rw on at h)))
        ]

    -- A retry is of the same engine and precision.
    pub retry_from-same :
        (o : Option W) (cfg retry : Config W) (res : TrialResult W) (s : Search W X)
        → retry_from env opts o cfg res s ≡ some retry
        → (cfg.backend ≡ retry.backend) × (cfg.quant ≡ retry.quant)
    retry_from-same none cfg retry res s h = cc
    retry_from-same (some gmu) cfg retry res s h =
        elim (Bool-cases (not (ran_out res) || too_low (lower gmu))) [
          | inl out ↦ cc (rw out at h)
          | inr on ↦
              let same = unless_done-same (with_gmu (lower gmu) cfg) retry s (rw on at h) in
              (ap (λ c. c.backend) same, ap (λ c. c.quant) same)
        ]

    Returns : ℕ → Config W → String → Search W X → Type 0
    Returns fuel cfg stage s =
        (p : TrialResult W × Search W X) × (run env opts fuel cfg stage s ≡ some p)

    one_more_fuel :
        (n : ℕ) (cfg : Config W) (stage : String) (s : Search W X)
        → ends_within n cfg.gpu_memory_utilization ≡ true
        → ((retry : Config W) (u : Search W X) (m : ℕ)
            → n ≡ suc m
            → ends_within m retry.gpu_memory_utilization ≡ true
            → Returns n retry stage u)
        → Returns (suc n) cfg stage s
    unfolding Returns run headroom_retry
    one_more_fuel n cfg stage s e again =
        let o = opened env opts n cfg stage s in
        let m = measured env opts n cfg stage s in
        elim (Option-cases (lookup (key cfg) s.done)) [
          | inr (res, k) ↦ ((res, s), rw (k, run) refl)
          | inl k ↦ elim (Bool-cases (over_budget env opts s).0) [
            | inl over ↦ ((not_run cfg stage, with_skip cfg stage o), rw (k, over, run) refl)
            | inr under ↦ elim (Option-cases (headroom_retry env opts cfg m.0 m.1)) [
              | inl last ↦ ((m.0, recorded m.0 m.1), rw (k, under, last, run) refl)
              | inr (retry, goes) ↦
                  let (j, eq, closer) =
                    retry_from-closer n cfg.gpu_memory_utilization cfg retry m.0 m.1 e goes in
                  let (p, ends) = again retry (with_retry cfg retry m.0 m.1) j eq closer in
                  (p, rw (k, under, goes, run) ends)
            ]
          ]
        ]

    -- With fuel for the steps down to the floor, and one more, a run always comes to a result.
    run_total :
        (n : ℕ) (cfg : Config W) (stage : String) (s : Search W X)
        → ends_within n cfg.gpu_memory_utilization ≡ true
        → (p : TrialResult W × Search W X) × (run env opts (suc n) cfg stage s ≡ some p)
    unfolding Returns
    run_total zero cfg stage s e =
        one_more_fuel zero cfg stage s e (λ retry u m eq closer. absurd (omega arith))
    run_total (suc n) cfg stage s e = one_more_fuel (suc n) cfg stage s e (λ retry u m eq closer.
        let fewer : m ≡ n = omega arith in
        run_total n retry stage u
          (subst (λ k. ends_within k retry.gpu_memory_utilization ≡ true) fewer closer))
