-- ===== src/Stages/Given.antt =====
-- What a search of polyserve/calibrate/search.py is given: a runner, and functions that propose variants.
use polyserve.Base.{
  ℕ, String, ◌≡◌, ◌∙◌, ap, inl, inr, ◌⊎◌, true, some, List, [], ◌∷◌, ◌++◌, All, Memᴰ, str_eq,
  Bool-cases,
}
use mathlib.Core.Option.{some-injective}
use polyserve.Float.{Float}
use polyserve.Models.{Config, TrialResult, lookup}
use polyserve.Power.Settings.{PowerSetting, with_power}
use polyserve.Search.{Env}
use polyserve.Search.Retry.{ends_within}
use polyserve.Stages.{Strategy, Variants}
use polyserve.Stages.Groups.{group_of}
use polyserve.Stages.Triples.{IsSound, IsTimed}

pub lookup-append_cases :
    {V : Type 0} (k j : String) (v w : V) (es : List (String × V))
    → lookup k (es ++ (j, v) ∷ []) ≡ some w
    → (lookup k es ≡ some w) ⊎ (v ≡ w)
lookup-append_cases k j v w [] h = elim (Bool-cases (str_eq j k)) [
  | inl e ↦ inr (some-injective _ _ (rw e at h))
  | inr e ↦ cc (rw e at h)
]
lookup-append_cases k j v w (e ∷ es) h = elim (Bool-cases (str_eq e.0 k)) [
  | inl same ↦ inl (rw same (rw same at h))
  | inr other ↦ rw other (lookup-append_cases k j v w es (rw other at h))
]

pub group_same :
    {W : Type 0} (c d : Config W)
    → c.backend ≡ d.backend
    → c.quant ≡ d.quant
    → group_of c ≡ group_of d
group_same c d b q = ap (λ x. (x, c.quant)) b ∙ ap (λ y. (d.backend, y)) q

-- The variants of a sound configuration are sound.
abbrev pub Proposes : {W : Type 0} ⦃f : Float W⦄ → ℕ → List (Config W) → Variants W → Type 0
Proposes {W} n feasible fn =
    (c : Config W) (vs : List (Config W))
    → fn c ≡ some vs
    → IsSound n feasible c
    → All (IsSound n feasible) vs

module _ {W X : Type 0} ⦃f : Float W⦄ (n : ℕ) (feasible : List (Config W)) where
  -- The runner returns a trial of the configuration that it was given, and a successful trial has its
  -- times; a sweep returns trials of its base under power settings.
  pub record IsRunner (env : Env W X) : Type 0 where
    pub given : (c : Config W) (stage : String) (x : X) → (env.run_trial c stage x).0.config ≡ c
    pub timed : (c : Config W) (stage : String) (x : X) → IsTimed (env.run_trial c stage x).0
    pub swept :
        (g : Config W → List PowerSetting → String → X → List (TrialResult W) × X)
        → env.sweep ≡ some g
        → (c : Config W) (ps : List PowerSetting) (stage : String) (x : X)
        → All
            (λ r. ((p : PowerSetting) × (r.config ≡ with_power c p)) × IsTimed r)
            (g c ps stage x).0

  pub record IsStrategy (st : Strategy W X) : Type 0 where
    pub prefill : (fn : Variants W) → st.prefill_variants ≡ some fn → Proposes n feasible fn
    pub stages : All (λ nf. Proposes n feasible nf.1) st.variant_stages
    pub space : All (λ c. ends_within n c.gpu_memory_utilization ≡ true) st.explore_space
    pub draws : (pool : List (Config W)) (k : ℕ) → All (λ c. Memᴰ c pool) (st.sample pool k)
