-- ===== src/Stages/Tuning.antt =====
-- About `stage_variants` and `stage_explore` of polyserve/calibrate/search.py.
use polyserve.Base.{
  ℕ, zero, suc, String, ◌≡◌, sym, ◌∙◌, subst, Bool, true, Option, none, some, List, [], ◌∷◌, All,
  Memᴰ, All-of_Memᴰ, All-imp, arith, not, is_some, str_eq, ◌&&◌, keep_if-passes,
}
use text.Mathlib.TextEquality.{eq_iff}
use polyserve.Float.{Float, same}
use polyserve.Models.{Config, TrialResult, ok, lookup, key}
use polyserve.Search.{Env, Settings, Search}
use polyserve.Search.Winner.{Memᴰ-of_keep_if}
use polyserve.Search.Retry.{ends_within}
use polyserve.Stages.{Strategy, Variants, Spec, any_spec, get, pure, ◌>>=◌, leader_of}
use polyserve.Stages.Variants.{
  variants_with, variants_of, stage_variants, explore_pool, explore_count, explore_some,
  explore_from, stage_explore,
}
use polyserve.Stages.Triples.{
  IsSound, IsFine, Holds, Ensures, Goes, pure-Ensures, get-Ensures, bind-Ensures, then-Ensures,
  each-Ensures,
}
use polyserve.Stages.Sound.{trial_only-Ensures}
use polyserve.Stages.Given.{IsRunner, IsStrategy, Proposes}
use polyserve.Stages.Picks.{leader_of-Ensures}
use polyserve.Stages.Start.{AllSome, AllSome-imp}
use polyserve.Stages.Early.{note-Goes}
use polyserve.Stages.Middle.{try_variant-Goes, proposed}
use polyserve.Stages.Given.{group_same}

module _ {W : Type 0} ⦃f : Float W⦄ (n : ℕ) (feasible : List (Config W)) where
  -- A configuration of the same engine and precision that asks for as much memory.
  pub like-IsSound :
      (c d : Config W)
      → IsSound n feasible c
      → c.gpu_memory_utilization ≡ d.gpu_memory_utilization
      → c.backend ≡ d.backend
      → c.quant ≡ d.quant
      → IsSound n feasible d
  like-IsSound c d sound g b q =
      let (e, m, same) = sound.planned in
      record {
        ends = subst (λ o. ends_within n o ≡ true) g sound.ends;
        planned = (e, m, same ∙ group_same c d b q);
      }

  drawn-IsSound :
      (lc c : Config W)
      → IsSound n feasible lc
      → ends_within n c.gpu_memory_utilization ≡ true
      → (str_eq c.backend lc.backend ≡ true) × (str_eq c.quant lc.quant ≡ true)
      → IsSound n feasible c
  drawn-IsSound lc c sound e (b, q) =
      let (d, m, same) = sound.planned in
      record {
        ends = e;
        planned = (d, m, same ∙ group_same lc c (sym ((eq_iff _ _).0 b)) (sym ((eq_iff _ _).0 q)));
      }

module _ {W X : Type 0} ⦃f : Float W⦄ (env : Env W X) (opts : Settings W) (n : ℕ)
    (feasible : List (Config W)) (runner : IsRunner n feasible env) (st : Strategy W X) where
  pub leader-Sound :
      (backend : Option String) (spec : Spec) (s : Search W X)
      → Holds n feasible s
      → Ensures n feasible
          (leader_of env opts st (suc n) backend spec)
          s
          (λ o t. AllSome (λ r. IsSound n feasible r.config) o)
  leader-Sound backend spec s h =
      let e = leader_of-Ensures env opts n feasible st backend spec s h in
      record {
        value = e.value;
        after = e.after;
        runs = e.runs;
        extends = e.extends;
        result =
            AllSome-imp (λ r. IsFine n feasible r × (ok r ≡ true))
              (λ r. IsSound n feasible r.config) (λ r q. q.0.0) e.value e.result;
      }

  variants_with-Goes :
      (name : String) (lead : Config W) (o : Option (List (Config W))) (s : Search W X)
      → AllSome (All (IsSound n feasible)) o
      → Holds n feasible s
      → Goes n feasible (variants_with st env opts (suc n) name lead o) s
  variants_with-Goes name lead none s q h = pure-Ensures n feasible tt s _ h tt
  variants_with-Goes name lead (some vs) s q h =
      each-Ensures n feasible (IsSound n feasible) _ vs s q
        (λ v t sound x. try_variant-Goes env opts n feasible runner st name lead v t sound x) h

  variants_of-Goes :
      (name : String) (fn : Variants W) (o : Option (TrialResult W)) (s : Search W X)
      → Proposes n feasible fn
      → AllSome (λ r. IsSound n feasible r.config) o
      → Holds n feasible s
      → Goes n feasible (variants_of st env opts (suc n) name fn o) s
  variants_of-Goes name fn none s p q h = pure-Ensures n feasible tt s _ h tt
  variants_of-Goes name fn (some lead) s p q h =
      variants_with-Goes name lead.config (fn lead.config) s
        (proposed env opts n feasible runner st fn lead.config p q) h

  pub stage_variants-Goes :
      (name : String) (fn : Variants W) (backend : Option String) (spec : Spec) (s : Search W X)
      → Proposes n feasible fn
      → Holds n feasible s
      → Goes n feasible (stage_variants st env opts (suc n) name fn backend spec) s
  unfolding stage_variants
  stage_variants-Goes name fn backend spec s p h =
      bind-Ensures n feasible _ _ s (λ o t. AllSome (λ r. IsSound n feasible r.config) o) _
        (leader-Sound backend spec s h) (λ o t x q. variants_of-Goes name fn o t p q x.holds)

  module _ (strategy : IsStrategy n feasible st) where
    pool-IsSound :
        (lc c : Config W) (s : Search W X)
        → IsSound n feasible lc
        → Memᴰ c (explore_pool st env opts (suc n) lc s)
        → IsSound n feasible c
    unfolding explore_pool
    pool-IsSound lc c s sound m =
        let test : Config W → Bool = λ d.
          str_eq d.backend lc.backend
          && (str_eq d.quant lc.quant && not (is_some (lookup (key d) s.done))) in
        let passes = All-of_Memᴰ _ _ (keep_if-passes test st.explore_space) m in
        drawn-IsSound n feasible lc c sound
          (All-of_Memᴰ _ st.explore_space strategy.space (Memᴰ-of_keep_if test st.explore_space m))
          (ground arith, ground arith)

    explore_some-Goes :
        (lc : Config W) (k : ℕ) (s u : Search W X)
        → IsSound n feasible lc
        → Holds n feasible s
        → Goes n feasible
            (explore_some st env opts (suc n) lc (explore_pool st env opts (suc n) lc u) k)
            s
    explore_some-Goes lc zero s u sound h = pure-Ensures n feasible tt s _ h tt
    explore_some-Goes lc (suc k) s u sound h =
        let pool = explore_pool st env opts (suc n) lc u in
        then-Ensures n feasible _ _ s (λ a t. Unit)
          (each-Ensures n feasible (IsSound n feasible) _ (st.sample pool (suc k)) s
            (All-imp (λ c. Memᴰ c pool) (IsSound n feasible) (λ c m. pool-IsSound lc c u sound m) _
              (strategy.draws pool (suc k)))
            (λ c t. trial_only-Ensures env opts n feasible runner st "explore" c t) h)
          (λ t x.
            bind-Ensures n feasible _ _ t (λ o u. AllSome (λ r. IsSound n feasible r.config) o) _
              (leader-Sound none any_spec t x) (λ o u y q. note-Goes n feasible _ u y.holds))

    explore_in-Goes :
        (space : List (Config W)) (lc : Config W) (s : Search W X)
        → IsSound n feasible lc
        → Holds n feasible s
        → Goes n feasible
            (elim space [
              | [] ↦ pure tt
              | c ∷ cs ↦ get >>= λ s.
                  (let pool = explore_pool st env opts (suc n) lc s in
                    explore_some st env opts
                      (suc n)
                      lc
                      pool
                      (explore_count st env opts (suc n) pool s))
            ])
            s
    explore_in-Goes [] lc s sound h = pure-Ensures n feasible tt s _ h tt
    explore_in-Goes (c ∷ cs) lc s sound h =
        get-Ensures n feasible _ s _ (explore_some-Goes lc _ s s sound h)

    explore_from-Goes :
        (o : Option (TrialResult W)) (s : Search W X)
        → AllSome (λ r. IsSound n feasible r.config) o
        → Holds n feasible s
        → Goes n feasible (explore_from st env opts (suc n) o) s
    explore_from-Goes none s q h = pure-Ensures n feasible tt s _ h tt
    explore_from-Goes (some lead) s q h = explore_in-Goes st.explore_space lead.config s q h

    pub stage_explore-Goes :
        (s : Search W X)
        → Holds n feasible s
        → Goes n feasible (stage_explore st env opts (suc n)) s
    unfolding stage_explore
    stage_explore-Goes s h =
        bind-Ensures n feasible _ _ s (λ o t. AllSome (λ r. IsSound n feasible r.config) o) _
          (leader-Sound none any_spec s h) (λ o t x q. explore_from-Goes o t q x.holds)
