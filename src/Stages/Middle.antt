-- ===== src/Stages/Middle.antt =====
-- About `stage_memory`, `stage_batch` and `stage_prefill` of polyserve/calibrate/search.py.
use polyserve.Base.{
  ℕ, suc, String, ◌≡◌, refl, Option, none, some, List, [], ◌∷◌, All, All-keep_if, All-take, keep_if,
  find_first, all,
}
use polyserve.Float.{Float}
use polyserve.Models.{Config, TrialResult, ok}
use polyserve.Search.{Env, Settings, Search, allowed}
use polyserve.Stages.{Strategy, Variants}
use polyserve.Stages.Groups.{Group}
use polyserve.Stages.Memory.{
  in_group, succeeded_in, config_of, first_ok, fall_back, memory_from, put_chosen, stage_memory,
  stage_batch, try_variant, prefill_with, prefill_from, stage_prefill,
}
use polyserve.Stages.Triples.{
  IsSound, IsFine, Holds, Goes, Yields, pure-Ensures, modify-Ensures, get-Ensures, bind-Ensures,
  then-Ensures, bind-Yields, each-Ensures, if-Ensures,
}
use polyserve.Stages.Sound.{Tried, trial-Ensures, trial_only-Ensures}
use polyserve.Stages.Given.{IsRunner, IsStrategy, Proposes}
use polyserve.Stages.Start.{AllSome, AllSome-of, keep_if-Starts, baseline-All}
use polyserve.Stages.Early.{IsPlanned}
use polyserve.Stages.Shapes.{
  find_first-All, any-of_Memᴰ, in_group-planned, memory_trials-All, batch_variants-All,
}

module _ {W X : Type 0} ⦃f : Float W⦄ (env : Env W X) (opts : Settings W) (n : ℕ)
    (feasible : List (Config W)) (runner : IsRunner n feasible env) (st : Strategy W X) where
  first_ok-Yields :
      (cs : List (Config W)) (s : Search W X)
      → All (IsSound n feasible) cs
      → Holds n feasible s
      → Yields n feasible (AllSome (IsSound n feasible)) (first_ok st env opts (suc n) cs) s
  unfolding first_ok
  first_ok-Yields [] s all h = pure-Ensures n feasible none s _ h tt
  first_ok-Yields (c ∷ cs) s all h =
      bind-Ensures n feasible _ _ s (Tried env opts n feasible runner) _
        (trial-Ensures env opts n feasible runner st c "memory" s all.0 h)
        (λ r t x q.
          if-Ensures n feasible (ok r) _ _ t _
            (λ e. pure-Ensures n feasible (some c) t _ x.holds all.0)
            (λ e. first_ok-Yields cs t all.1 x.holds))

  found :
      (o : Option (TrialResult W))
      → AllSome (IsFine n feasible) o
      → AllSome (IsSound n feasible) (elim o [ none ↦ none | some r ↦ some r.config ])
  found none q = tt
  found (some r) q = q.0

  fall_back-All :
      (k : Group) (o : Option (Config W)) (s : Search W X)
      → AllSome (IsSound n feasible) o
      → Holds n feasible s
      → AllSome (IsSound n feasible) (fall_back st env opts (suc n) k o s)
  fall_back-All k (some c) s q h = q
  fall_back-All k none s q h =
      found (find_first (succeeded_in k) s.results)
        (find_first-All (IsFine n feasible) (succeeded_in k) s.results h.fine)

  config_of-All :
      (base : Config W) (r : Option (TrialResult W))
      → IsSound n feasible base
      → AllSome (IsFine n feasible) r
      → IsSound n feasible (config_of base r)
  config_of-All base none b q = b
  config_of-All base (some r) b q = q.0

  memory_from-Yields :
      (k : Group) (base : Config W) (s : Search W X)
      → All (IsSound n feasible) feasible
      → IsSound n feasible base
      → Holds n feasible s
      → Yields n feasible
          (AllSome (IsSound n feasible))
          (memory_from st env opts (suc n) feasible k base)
          s
  memory_from-Yields k base s all b h = get-Ensures n feasible _ s _ (
      bind-Yields n feasible (AllSome (IsSound n feasible)) (AllSome (IsSound n feasible)) _ _ s
        (first_ok-Yields _ s
          (All-take (IsSound n feasible) st.max_memory_trials_per_quant _ (
            memory_trials-All n feasible (IsSound n feasible) _ _
              (All-keep_if (IsSound n feasible) (in_group k) feasible all)))
          h)
        (λ o t q x.
          get-Ensures n feasible _ t _ (pure-Ensures n feasible _ t _ x (fall_back-All k o t q x))))

  put_chosen-All :
      (k : Group) (o : Option (Config W)) (rest : List (Group × Config W))
      → AllSome (IsSound n feasible) o
      → All (λ kc. IsSound n feasible kc.1) rest
      → All (λ kc. IsSound n feasible kc.1) (put_chosen st env opts (suc n) k o rest)
  put_chosen-All k none rest q h = h
  put_chosen-All k (some c) rest q h = (q, h)

  -- Each precision that is kept has a baseline, so the memory stage raises nothing.
  pub stage_memory-Yields :
      (ks : List Group) (s : Search W X)
      → All (IsSound n feasible) feasible
      → All (IsPlanned feasible) ks
      → Holds n feasible s
      → Yields n feasible
          (All (λ kc. IsSound n feasible kc.1))
          (stage_memory st env opts (suc n) feasible ks)
          s
  unfolding stage_memory
  stage_memory-Yields [] s all planned h = pure-Ensures n feasible [] s _ h tt
  stage_memory-Yields (k ∷ ks) s all planned h =
      let (b, (e, sound)) =
        baseline-All (IsSound n feasible) (keep_if (in_group k) feasible)
          (keep_if-Starts (in_group k) feasible (
            any-of_Memᴰ (in_group k) feasible planned.0.given
              (in_group-planned n feasible k planned.0)))
          (All-keep_if (IsSound n feasible) (in_group k) feasible all) in
      rw (e, stage_memory)
        (bind-Yields n feasible (AllSome (IsSound n feasible)) (All (λ kc. IsSound n feasible kc.1))
          _ _ s (memory_from-Yields k b s all sound h)
          (λ o t q x.
            bind-Yields n feasible (All (λ kc. IsSound n feasible kc.1))
              (All (λ kc. IsSound n feasible kc.1)) _ _ t (stage_memory-Yields ks t all planned.1 x)
              (λ rest u r y. pure-Ensures n feasible _ u _ y (put_chosen-All k o rest q r))))

  pub stage_batch-Goes :
      (chosen : List (Group × Config W)) (s : Search W X)
      → All (IsSound n feasible) feasible
      → All (λ kc. IsSound n feasible kc.1) chosen
      → Holds n feasible s
      → Goes n feasible (stage_batch st env opts (suc n) feasible chosen) s
  unfolding stage_batch
  stage_batch-Goes chosen s all sound h =
      each-Ensures n feasible (λ kc. IsSound n feasible kc.1) _ chosen s sound
        (λ kc t q x.
          each-Ensures n feasible (IsSound n feasible) _ _ t
            (batch_variants-All n feasible st (IsSound n feasible) kc.0 kc.1 all)
            (λ c u. trial_only-Ensures env opts n feasible runner st "batch" c u) x)
        h

  pub try_variant-Goes :
      (dim : String) (base v : Config W) (s : Search W X)
      → IsSound n feasible v
      → Holds n feasible s
      → Goes n feasible (try_variant st env opts (suc n) dim base v) s
  try_variant-Goes dim base v s sound h =
      then-Ensures n feasible _ _ s (λ u t. Unit)
        (trial_only-Ensures env opts n feasible runner st dim v s sound h)
        (λ t x. modify-Ensures n feasible _ t refl refl x)

  pub proposed :
      (fn : Variants W) (c : Config W)
      → Proposes n feasible fn
      → IsSound n feasible c
      → AllSome (All (IsSound n feasible)) (fn c)
  proposed fn c p sound = AllSome-of (All (IsSound n feasible)) (fn c) (λ vs e. p c vs e sound)

  module _ (strategy : IsStrategy n feasible st) where
    prefill_with-Goes :
        (base : Config W) (o : Option (List (Config W))) (s : Search W X)
        → AllSome (All (IsSound n feasible)) o
        → Holds n feasible s
        → Goes n feasible (prefill_with st env opts (suc n) base o) s
    prefill_with-Goes base none s q h = pure-Ensures n feasible tt s _ h tt
    prefill_with-Goes base (some vs) s q h =
        each-Ensures n feasible (IsSound n feasible) _ vs s q
          (λ v t sound x.
            if-Ensures n feasible (allowed opts.feasible_fn v) _ _ t _
              (λ e. try_variant-Goes "prefill" base v t sound x)
              (λ e. pure-Ensures n feasible tt t _ x tt))
          h

    prefill_from-Goes :
        (base : Config W) (o : Option (Variants W)) (s : Search W X)
        → ((fn : Variants W) → o ≡ some fn → Proposes n feasible fn)
        → IsSound n feasible base
        → Holds n feasible s
        → Goes n feasible (prefill_from st env opts (suc n) base o) s
    prefill_from-Goes base none s p sound h = pure-Ensures n feasible tt s _ h tt
    prefill_from-Goes base (some fn) s p sound h =
        prefill_with-Goes base (fn base) s (proposed fn base (p fn refl) sound) h

    pub stage_prefill-Goes :
        (base : Config W) (s : Search W X)
        → IsSound n feasible base
        → Holds n feasible s
        → Goes n feasible (stage_prefill st env opts (suc n) base) s
    unfolding stage_prefill
    stage_prefill-Goes base s = prefill_from-Goes base st.prefill_variants s strategy.prefill
