-- ===== src/Pipeline/Expand.antt =====
-- What `search_space` of polyserve/pipeline.py adds to the planned configurations, stage by stage.
use polyserve.Base.{
  ◌≡◌, subst, inl, inr, some, List, [], ◌∷◌, ◌++◌, All, All-append, All-imp, Memᴰ, Memᴰ-append_left,
  Option-cases,
}
use mathlib.Core.Option.{some-injective}
use polyserve.Models.{Config}
use polyserve.Stages.{Variants}
use polyserve.Pipeline.Variants.{variants_all, expand}
use polyserve.Pipeline.Spaces.{IsLike, StaysLike}

module _ {W : Type 0} (P : Config W → Type 0)
    (closed : (c v : Config W) → P c → IsLike c v → P v) where
  pub variants_all-All :
      (stage : Variants W) (cs vs : List (Config W))
      → StaysLike stage
      → All P cs
      → variants_all stage cs ≡ some vs
      → All P vs
  unfolding variants_all
  variants_all-All stage [] vs k h e = subst (All P) (some-injective _ _ e) tt
  variants_all-All stage (c ∷ cs) vs k h e = elim (Option-cases (stage c)) [
    | inl raised ↦ cc (rw (raised, variants_all) at e)
    | inr (us, mine) ↦ elim (Option-cases (variants_all stage cs)) [
      | inl raised ↦ cc (rw (mine, raised, variants_all) at e)
      | inr (rest, theirs) ↦
          subst (All P) (some-injective _ _ (rw (mine, theirs, variants_all) at e)) (
            All-append P us rest (All-imp (IsLike c) P (λ v l. closed c v h.0 l) us (k c us mine))
              (variants_all-All stage cs rest k h.1 theirs))
    ]
  ]

  -- Every configuration so far stays, and the new ones are like those.
  pub expand-All :
      (stages : List (Variants W)) (cs all : List (Config W))
      → All StaysLike stages
      → All P cs
      → expand stages cs ≡ some all
      → All P all
  unfolding expand
  expand-All [] cs all k h e = subst (All P) (some-injective _ _ e) h
  expand-All (stage ∷ stages) cs all k h e = elim (Option-cases (variants_all stage cs)) [
    | inl raised ↦ cc (rw (raised, expand) at e)
    | inr (vs, mine) ↦
        expand-All stages (cs ++ vs) all k.1
          (All-append P cs vs h (variants_all-All stage cs vs k.0 h mine)) (rw (mine, expand) at e)
  ]

module _ {W : Type 0} where
  pub expand-mem :
      (stages : List (Variants W)) (cs all : List (Config W)) {c : Config W}
      → expand stages cs ≡ some all
      → Memᴰ c cs
      → Memᴰ c all
  unfolding expand
  expand-mem [] cs all {c} e m = subst (Memᴰ c) (some-injective _ _ e) m
  expand-mem (stage ∷ stages) cs all e m = elim (Option-cases (variants_all stage cs)) [
    | inl raised ↦ cc (rw (raised, expand) at e)
    | inr (vs, mine) ↦
        expand-mem stages (cs ++ vs) all (rw (mine, expand) at e) (Memᴰ-append_left cs vs m)
  ]
