-- ===== src/Stages/Outcome.antt =====
-- About `StagedSearch.run` of polyserve/calibrate/search.py.
use polyserve.Base.{
  All-of_members, ℕ, suc, String, ◌≡◌, refl, sym, subst, true, Option, none, some, List, [], ◌∷◌,
  ◌++◌, All, Memᴰ, All-of_Memᴰ,
}
use polyserve.Base.Sort.{All-sort}
use polyserve.Float.{Float}
use polyserve.Models.{Config, TrialResult, ok}
use polyserve.Search.{Env, Settings, Search}
use polyserve.Search.Retry.{ends_within}
use polyserve.Stages.{Strategy, any_spec, ◌>>=◌}
use polyserve.Stages.Groups.{group_of}
use polyserve.Stages.Triples.{
  IsSound, Holds, Ensures, Goes, pure-Ensures, get-Ensures, bind-Ensures, then-Ensures, bind-Yields,
  each-Ensures,
}
use polyserve.Stages.Given.{IsRunner, IsStrategy, Proposes}
use polyserve.Stages.Start.{AllSome}
use polyserve.Stages.Early.{IsPlanned}
use polyserve.Base.{ltb}
use polyserve.Search.{new_search}
use polyserve.Stages.Triples.{each-Goes, Appends-same}
use polyserve.Stages.Early.{stage_quant-Yields, group_of-IsPlanned}
use polyserve.Stages.Middle.{stage_memory-Yields, stage_batch-Goes}
use polyserve.Stages.Tuning.{stage_variants-Goes, stage_explore-Goes}
use polyserve.Stages.Tuned.{contenders-Yields, tune_unless_outpaced-Goes}
use polyserve.Stages.Fresh.{On}
use polyserve.Stages.Contenders.{offer_count}
use polyserve.Stages.Quant.{stage_quant}
use polyserve.Stages.Whole.{
  Winner, variations, early_variations, middle_stages, power_notes, skip_notes, conclude,
  later_stages, with_kept, run_stages,
}
use polyserve.Stages.Picks.{pick-Picks}
use polyserve.Stages.Pool.{Pools, final_pool-Ensures, powered-Ensures}

module _ {W X : Type 0} ⦃f : Float W⦄ (n : ℕ) (feasible : List (Config W)) where
  -- The winner is on record, sound, and was measured without a failure.
  abbrev pub IsWinner : Option (TrialResult W) → Search W X → Type 0
  IsWinner w t = AllSome (λ r. On n feasible t r × (ok r ≡ true)) w

module _ {W X : Type 0} ⦃f : Float W⦄ (env : Env W X) (opts : Settings W) (n : ℕ)
    (feasible : List (Config W)) (runner : IsRunner n feasible env) (st : Strategy W X) where
  abbrev Won : Winner W → Search W X → Type 0
  Won w t = IsWinner n feasible w.0 t

  conclude-Ensures :
      (pool : List (TrialResult W)) (s : Search W X)
      → Pools env opts n feasible runner st pool s
      → Holds n feasible s
      → Ensures n feasible (conclude st env opts (suc n) pool) s Won
  unfolding conclude
  conclude-Ensures pool s q h =
      let (w, notes, e, winner) = pick-Picks st (On n feasible s) (λ r h. h.0.1) pool q in
      let all = s.notes ++ skip_notes st env opts (suc n) s in
      record {
        value = (w, all ++ (notes ++ power_notes st env opts (suc n) w pool s));
        after = record s { notes = all };
        runs = rw (e, conclude) refl;
        extends = record {
          holds = record { fine = h.fine; memo = h.memo };
          appends = Appends-same n feasible s (record s { notes = all }) refl;
        };
        result = winner;
      }

  won :
      (w : Option (TrialResult W)) (t : Search W X)
      → IsWinner n feasible w t
      → AllSome (λ r. (ok r ≡ true) × Memᴰ r t.results × IsPlanned feasible (group_of r.config)) w
  won none t q = tt
  won (some r) t q = (q.1, q.0.1, group_of-IsPlanned n feasible r.config q.0.0.0)

  module _ (strategy : IsStrategy n feasible st) where
    early_variations-Goes :
        (budget : Option W) (s : Search W X)
        → Holds n feasible s
        → Goes n feasible (early_variations st env opts (suc n) budget) s
    early_variations-Goes none s h = pure-Ensures n feasible tt s _ h tt
    early_variations-Goes (some budget) s h =
        bind-Ensures n feasible _ _ s (λ bases t. All (IsSound n feasible) bases) _
          (contenders-Yields env opts n feasible runner st "the precision stage" s h)
          (λ bases t x q.
            each-Goes n feasible (variations st env opts (suc n)) bases t
              (λ base u y.
                each-Ensures n feasible (λ nf. Proposes n feasible nf.1) _ st.variant_stages u
                  strategy.stages
                  (λ nf v p z.
                    stage_variants-Goes env opts n feasible runner st nf.0 nf.1 (some base.backend)
                      any_spec v p z)
                  y)
              x.holds)

    middle_stages-Goes :
        (kept : List (String × String)) (s : Search W X)
        → All (IsSound n feasible) feasible
        → All (IsPlanned feasible) kept
        → Holds n feasible s
        → Goes n feasible (middle_stages st env opts (suc n) feasible kept) s
    unfolding middle_stages
    middle_stages-Goes kept s sound planned h =
        then-Ensures n feasible _ _ s _ (early_variations-Goes opts.budget_s s h) (λ t x.
          bind-Yields n feasible (All (λ kc. IsSound n feasible kc.1)) (λ u. Unit) _ _ t
            (stage_memory-Yields env opts n feasible runner st kept t sound planned x)
            (λ chosen u q y.
              then-Ensures n feasible _ _ u _
                (stage_batch-Goes env opts n feasible runner st chosen u sound q y)
                (λ v z.
                  bind-Yields n feasible (All (IsSound n feasible)) (λ a. Unit) _ _ v
                    (contenders-Yields env opts n feasible runner st "the batch stage" v z)
                    (λ bases w p k.
                      then-Ensures n feasible _ _ w _
                        (each-Ensures n feasible (IsSound n feasible) _ _ w
                          (All-sort
                            (λ a b.
                              ltb (offer_count st.variant_stages b)
                                (offer_count st.variant_stages a))
                            (IsSound n feasible) bases p)
                          (λ base r g m.
                            tune_unless_outpaced-Goes env opts n feasible runner st strategy base r
                              g m)
                          k)
                        (λ r m. stage_explore-Goes env opts n feasible runner st strategy r m)))))

    later_stages-Ensures :
        (kept : List (String × String)) (s : Search W X)
        → All (IsSound n feasible) feasible
        → All (IsPlanned feasible) kept
        → Holds n feasible s
        → Ensures n feasible (later_stages st env opts (suc n) feasible kept) s Won
    unfolding later_stages
    later_stages-Ensures kept s sound planned h =
        then-Ensures n feasible _ _ s Won (middle_stages-Goes kept s sound planned h) (λ t x.
          bind-Ensures n feasible _ _ t (Pools env opts n feasible runner st) Won
            (final_pool-Ensures env opts n feasible runner st t x)
            (λ pool u y q.
              bind-Ensures n feasible _ _ u (Pools env opts n feasible runner st) Won
                (powered-Ensures env opts n feasible runner st pool u q y.holds)
                (λ more v z p. conclude-Ensures more v p z.holds)))

    with_kept-Ensures :
        (kept : List (String × String)) (s : Search W X)
        → All (IsSound n feasible) feasible
        → All (IsPlanned feasible) kept
        → Holds n feasible s
        → Ensures n feasible (with_kept st env opts (suc n) feasible kept) s Won
    with_kept-Ensures [] s sound planned h =
        get-Ensures n feasible _ s Won (pure-Ensures n feasible _ s Won h tt)
    with_kept-Ensures (k ∷ kept) s sound planned h =
        later_stages-Ensures (k ∷ kept) s sound planned h

    run_stages-Ensures :
        (feas : List (Config W)) (s : Search W X)
        → feas ≡ feasible
        → All (IsSound n feasible) feasible
        → Holds n feasible s
        → Ensures n feasible (run_stages st env opts (suc n) feas) s Won
    unfolding run_stages
    run_stages-Ensures [] s e sound h = pure-Ensures n feasible _ s Won h tt
    run_stages-Ensures (c ∷ cs) s e sound h =
        subst
          (λ l.
            Ensures n feasible
              (stage_quant st env opts (suc n) l >>= with_kept st env opts (suc n) l) s Won)
          (sym e)
          (bind-Ensures n feasible _ _ s (λ kept t. All (IsPlanned feasible) kept) Won
            (stage_quant-Yields env opts n feasible runner st s sound h)
            (λ kept t x planned. with_kept-Ensures kept t sound planned x.holds))

    all-IsSound :
        All (λ c. ends_within n c.gpu_memory_utilization ≡ true) feasible
        → All (IsSound n feasible) feasible
    all-IsSound ends = All-of_members (IsSound n feasible) feasible (λ c m. record {
      ends = All-of_Memᴰ (λ d. ends_within n d.gpu_memory_utilization ≡ true) feasible ends m;
      planned = (c, m, refl);
    })

    -- A new search over planned configurations, the retries of each of which end within `n` steps,
    -- raises nothing and returns: with any runner that tries what it is given and times what succeeds,
    -- and with any variants and draws that ask for the memory of what they start from. If there is a
    -- winner, it is a successful trial on record, of the engine and precision of a planned
    -- configuration.
    pub run_stages-finds :
        (x : X)
        → All (λ c. ends_within n c.gpu_memory_utilization ≡ true) feasible
        → (winner : Option (TrialResult W)) × (notes : List String) × (t : Search W X) × (run_stages
              st env opts
              (suc n)
              feasible
              (new_search x)
            ≡ some ((winner, notes), t))
          × AllSome
              (λ r. (ok r ≡ true) × Memᴰ r t.results × IsPlanned feasible (group_of r.config))
              winner
    run_stages-finds x ends =
        let e =
          run_stages-Ensures feasible (new_search x) refl (all-IsSound ends)
            (record { fine = tt; memo = λ k r h. cc }) in
        (e.value.0, e.value.1, e.after, e.runs, won e.value.0 e.after e.result)
