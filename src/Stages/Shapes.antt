-- ===== src/Stages/Shapes.antt =====
-- What `stage_memory` and `stage_batch` of polyserve/calibrate/search.py choose from.
use polyserve.Base.{
  ℕ, ◌≡◌, refl, sym, subst, inl, inr, Bool, true, false, List, [], ◌∷◌, All, Memᴰ, All-keep_if,
  Bool-cases, arith, if◌then◌else◌, find_first, any, ◌&&◌, ◌==◌,
}
use polyserve.Base.Sort.{All-sort}
use polyserve.Float.{Float, same}
use polyserve.Models.{Config}
use polyserve.Search.Keys.{same_text}
use polyserve.Stages.{Strategy}
use polyserve.Stages.Quant.{memory_knob}
use polyserve.Stages.Groups.{Group, same_group}
use polyserve.Stages.Memory.{
  in_group, same_shape, first_shapes, memory_trials, batch_variants, batch_order, slower,
}
use polyserve.Stages.Start.{AllSome}
use polyserve.Stages.Early.{IsPlanned}

pub find_first-All :
    {A : Type 0} (P : A → Type 0) (test : A → Bool) (xs : List A)
    → All P xs
    → AllSome P (find_first test xs)
find_first-All P test [] h = tt
find_first-All P test (x ∷ xs) h = elim (Bool-cases (test x)) [
  | inl e ↦ rw e h.0
  | inr e ↦ rw e (find_first-All P test xs h.1)
]

pub any-of_Memᴰ :
    {A : Type 0} {a : A} (test : A → Bool) (xs : List A)
    → Memᴰ a xs
    → test a ≡ true
    → any test xs ≡ true
any-of_Memᴰ test [] m e = elim m [ ]
any-of_Memᴰ test (x ∷ xs) (Memᴰ.head p) e =
    let hit : test x ≡ true = subst (λ y. test y ≡ true) p e in rw hit refl
any-of_Memᴰ test (x ∷ xs) (Memᴰ.tail m) e = ground (arith, any-of_Memᴰ test xs m e)

pub if_All :
    {A : Type 0} (P : A → Type 0) (b : Bool) (xs ys : List A)
    → All P xs
    → All P ys
    → All P (if b then xs else ys)
if_All P true xs ys hx hy = hx
if_All P false xs ys hx hy = hy

module _ {W : Type 0} ⦃f : Float W⦄ (n : ℕ) (feasible : List (Config W)) where
  pub in_group-planned : (k : Group) → (p : IsPlanned feasible k) → in_group k p.config ≡ true
  in_group-planned k p =
      subst (λ j. same_group j k ≡ true) (sym p.group)
        (ground (arith, same_text k.0, same_text k.1))

  first_shapes-All :
      (P : Config W → Type 0) (seen cs : List (Config W)) → All P cs → All P (first_shapes seen cs)
  unfolding first_shapes
  first_shapes-All P seen [] h = tt
  first_shapes-All P seen (c ∷ cs) h = elim (Bool-cases (any (same_shape c) seen)) [
    | inl e ↦ rw (e, first_shapes) (first_shapes-All P seen cs h.1)
    | inr e ↦ rw (e, first_shapes) (h.0, first_shapes-All P (c ∷ seen) cs h.1)
  ]

  pub memory_trials-All :
      (P : Config W → Type 0) (group : List (Config W)) (base : Config W)
      → All P group
      → All P (memory_trials group base)
  unfolding memory_trials
  memory_trials-All P group base h =
      first_shapes-All P [] _ (All-sort _ P _ (All-keep_if P _ group h))

  pub batch_variants-All :
      {X : Type 0} (st : Strategy W X) (P : Config W → Type 0) (k : Group) (mem : Config W)
      → All P feasible
      → All P (batch_variants st feasible k mem)
  unfolding batch_variants
  batch_variants-All st P k mem h =
      let vs =
        All-keep_if P
          (λ c. in_group k c && (c.ctx == mem.ctx && same (memory_knob c) (memory_knob mem)))
          feasible h in
      if_All P _ _ _ (All-sort (slower st) P _ vs) (All-sort batch_order P _ vs)
