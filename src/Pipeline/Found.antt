-- ===== src/Pipeline/Found.antt =====
-- The search of polyserve/calibrate/search.py as `calibrate` of polyserve/pipeline.py runs it, with the
-- engines of polyserve/backends on the configurations of `prepare_and_plan`.
use polyserve.Base.{
  ℕ, suc, String, ◌≡◌, refl, sym, subst, inl, inr, Bool, true, false, ◌&&◌, Option, none, some,
  List, [], All, All-imp, All-both, is_some, All-map, All-concat_map, All-of_Memᴰ, Memᴰ, Bool-cases,
  if◌then◌else◌,
}
use mathlib.Core.Option.{some-injective}
use polyserve.Float.{Float}
use polyserve.Models.{Config, HardwareDescriptor, TrialResult, ok, lookup}
use polyserve.Search.{Env, Search, new_search}
use polyserve.Search.Retry.{ends_within}
use polyserve.Stages.{Strategy, Variants}
use polyserve.Stages.Groups.{group_of}
use polyserve.Stages.Given.{IsRunner, IsStrategy, Proposes}
use polyserve.Stages.Tuning.{like-IsSound}
use polyserve.Stages.Early.{IsPlanned}
use polyserve.Stages.Start.{AllSome}
use polyserve.Stages.Outcome.{run_stages-finds}
use polyserve.Stages.Whole.{run_stages}
use polyserve.Backends.{Installed, Fitted}
use polyserve.Backends.Offered.{shares}
use polyserve.Backends.Registry.{registry}
use polyserve.Backends.Kept.{registry-VariantsKeep}
use polyserve.Pipeline.{SearchOptions, PlanResult, all_feasible}
use polyserve.Pipeline.Variants.{with_prefix, search_space, engine_variants}
use polyserve.Pipeline.Calibrate.{settings_for, space_for, strategy_for}
use polyserve.Pipeline.Spaces.{
  IsLike, StaysLike, StageStays, prefill-StaysLike, variant_stages-StayLike,
}
use polyserve.Pipeline.Runs.{IsKnown}
use polyserve.Pipeline.Reached.{search_space-IsReached}
use polyserve.Pipeline.Answered.{IsPlan, IsPlannedFor}

module _ {W : Type 0} ⦃f : Float W⦄ (i : Installed) (fitted : Fitted W) (plan : PlanResult W)
    (o : SearchOptions W) (hw : HardwareDescriptor) (shared_prefix : Bool) (n min_ctx : ℕ)
    (planned : IsPlan min_ctx (registry i fitted) plan)
    (shares_end : All (λ w. ends_within n w ≡ true) (shares {W = W})) where
  abbrev pub Ends : Config W → Type 0
  Ends c = ends_within n c.gpu_memory_utilization ≡ true

  abbrev pub feasible : List (Config W)
  feasible = with_prefix o (all_feasible plan)

  plan-Ends : All Ends (all_feasible plan)
  unfolding all_feasible
  plan-Ends = All-concat_map Ends _ plan.feasible (
      All-imp (λ e. All (IsPlannedFor min_ctx e.0) e.1) _
        (λ e h.
          All-map (IsPlannedFor min_ctx e.0) Ends (λ ce. ce.0)
            (λ ce p. All-of_Memᴰ (λ w. ends_within n w ≡ true) shares shares_end p.share) e.1 h)
        plan.feasible planned.offers)

  feasible-Ends : All Ends feasible
  feasible-Ends = elim (Bool-cases o.prefix_cache) [
    | inl e ↦ rw e plan-Ends
    | inr e ↦ rw e (
        All-map Ends Ends (λ (c : Config W). record c { prefix_cache = some false }) (λ c h. h)
          (all_feasible plan) plan-Ends)
  ]

  -- An engine that is known and has a prepared model.
  abbrev IsReady : String → Type 0
  IsReady name =
      (is_some (lookup name (registry i fitted)) ≡ true)
      × (is_some (lookup name plan.prepared) ≡ true)

  plan-AreKnown : All (IsKnown (registry i fitted) plan) (all_feasible plan)
  unfolding all_feasible
  plan-AreKnown = All-concat_map (IsKnown (registry i fitted) plan) _ plan.feasible (
      All-both (λ e. All (IsPlannedFor min_ctx e.0) e.1) (λ e. IsReady e.0) _
        (λ e h ready.
          All-map (IsPlannedFor min_ctx e.0) (λ c. IsReady c.backend) (λ ce. ce.0)
            (λ ce p. subst IsReady (sym p.engine) ready) e.1 h)
        plan.feasible planned.offers
        (All-both (λ e. is_some (lookup e.0 (registry i fitted)) ≡ true) _ (λ e. IsReady e.0)
          (λ e k r. (k, r)) plan.feasible planned.known planned.ready))

  -- The space that the explore stage draws from.
  drawn :
      (explore : Bool)
      → (space : List (Config W)) × ((if explore
            then search_space (registry i fitted) plan o hw shared_prefix
            else some [])
          ≡ some space)
        × All Ends space
  drawn false = ([], refl, tt)
  drawn true =
      let (space, e, runs, distinct, reached, complete) =
        search_space-IsReached (registry i fitted) plan (registry-VariantsKeep i fitted) o hw
          shared_prefix plan-AreKnown in
      (
        space,
        e,
        All-imp _ Ends
            (λ c r.
              let (d, m, like) = r in
              subst (λ w. ends_within n w ≡ true) (sym like.share)
                (All-of_Memᴰ Ends (all_feasible plan) plan-Ends m))
            space reached,
      )

  like-Proposes : (fn : Variants W) → StaysLike fn → Proposes n feasible fn
  like-Proposes fn k c vs e sound =
      All-imp (IsLike c) _
        (λ v l. like-IsSound n feasible c v sound (sym l.share) (sym l.engine) (sym l.precision)) vs
        (k c vs e)

  module _ {X : Type 0} (defaults : Strategy W X) (phase_tuning : Bool)
      (draws : (pool : List (Config W)) (k : ℕ)
        → All (λ c. Memᴰ c pool) (defaults.sample pool k)) where
    prefill-Proposes :
        (b : Bool) (fn : Variants W)
        → (if b
            then some (engine_variants (registry i fitted) plan (λ be. be.prefill_variants))
            else none)
          ≡ some fn
        → Proposes n feasible fn
    prefill-Proposes true fn e = subst (Proposes n feasible) (some-injective _ _ e) (
        like-Proposes _
          (prefill-StaysLike (registry i fitted) plan (registry-VariantsKeep i fitted)))
    prefill-Proposes false fn e = cc

    abbrev pub strategy : List (Config W) → Strategy W X
    strategy space =
        strategy_for (registry i fitted) plan o hw shared_prefix defaults phase_tuning space

    strategy-IsStrategy :
        (space : List (Config W)) → All Ends space → IsStrategy n feasible (strategy space)
    unfolding strategy_for
    strategy-IsStrategy space ends = record {
      prefill = prefill-Proposes (phase_tuning && o.phase_tuning);
      stages =
          All-imp StageStays (λ s. Proposes n feasible s.1) (λ s k. like-Proposes s.1 k) _
            (variant_stages-StayLike (registry i fitted) plan (registry-VariantsKeep i fitted) o hw
              shared_prefix);
      space = ends;
      draws = draws;
    }

    -- `calibrate` on a plan of `prepare_and_plan`, with the engines of the registry: with any runner
    -- that reports times and any draws from the pool, and if lowering any share of the card that the
    -- grids have passes the floor within `n` steps, the space to draw from is found and the search
    -- raises nothing and returns. If there is a winner, it is a successful trial on record, of the
    -- engine and precision of a configuration that was planned.
    pub calibrate-finds :
        (env : Env W X) (x : X)
        → IsRunner n feasible env
        → (space : List (Config W)) × (space_for (registry i fitted) plan o hw shared_prefix
            ≡ some space)
          × (winner : Option (TrialResult W)) × (notes : List String) × (t : Search W X)
          × (run_stages
                (strategy space)
                env
                (settings_for (registry i fitted) plan o hw shared_prefix)
                (suc n)
                feasible
                (new_search x)
              ≡ some ((winner, notes), t))
          × AllSome
              (λ r. (ok r ≡ true) × Memᴰ r t.results × IsPlanned feasible (group_of r.config))
              winner
    unfolding space_for
    calibrate-finds env x runner =
        let (space, e, ends) = drawn o.explore in
        let (winner, notes, t, ran, sound) =
          run_stages-finds env (settings_for (registry i fitted) plan o hw shared_prefix) n feasible
            runner (strategy space) (strategy-IsStrategy space ends) x feasible-Ends in
        (space, e, winner, notes, t, ran, sound)
