-- ===== src/Pipeline/Planned.antt =====
-- About `prepare_and_plan` of polyserve/pipeline.py.
use polyserve.Base.{
  ℕ, String, ◌≡◌, refl, inl, inr, Bool, true, false, ◌&&◌, Option, some, List, [], ◌∷◌, All,
  All-imp, All-of_Memᴰ, Bool-cases, Option-cases, is_some,
}
use polyserve.Float.{Float}
use polyserve.Models.{Config, HardwareDescriptor, PreparedModel, MemoryEstimate, lookup}
use polyserve.Memory.{plan}
use polyserve.Memory.Plan.{plan_sound}
use polyserve.Backends.{Backend}
use polyserve.Backends.Offered.{IsOffer, OffersAll}
use polyserve.Pipeline.{PlanResult, allowed_quants}
use polyserve.Pipeline.Plan.{
  Sources, with_model, new_plan, plan_again, materialized, plan_grid, plan_engine, plan_all,
  prepare_and_plan, is_none_of,
}
use polyserve.Pipeline.Answered.{
  IsPlannedFor, IsPlan, IsAnswered, IsDone, failed-IsDone, with_model-IsPlan, with_kept-IsDone,
}
use polyserve.Pipeline.Spaces.{lookup-All}

module _ {W : Type 0} ⦃f : Float W⦄ (min_ctx : ℕ) (registry : List (String × Backend W)) where
  module _ (sources : Sources) (hw : HardwareDescriptor) (quants : Option (List String))
      (materialize : Bool) (offers : All OffersAll registry) where
    kept-IsPlannedFor :
        (name : String) (be : Backend W) (model used : PreparedModel) (grid : List (Config W))
        (kept : List (Config W × MemoryEstimate))
        → All (IsOffer name model min_ctx) grid
        → plan hw used (be.memory_model hw) grid ≡ some kept
        → All (IsPlannedFor min_ctx name) kept
    kept-IsPlannedFor name be model used grid kept h e =
        All-imp _ (IsPlannedFor min_ctx name)
          (λ ce k.
            let offer = All-of_Memᴰ (IsOffer name model min_ctx) grid h k.0 in
            record {
              engine = offer.engine;
              holds = offer.holds;
              share = offer.share;
              fits = k.1.feasible;
            })
          kept (plan_sound hw used (be.memory_model hw) grid kept e)

    plan_again-IsDone :
        (name : String) (be : Backend W) (model : PreparedModel) (grid : List (Config W))
        (left : PreparedModel × Bool) (before r : PlanResult W)
        → is_some (lookup name registry) ≡ true
        → All (IsOffer name model min_ctx) grid
        → IsDone min_ctx registry name before r
        → IsDone min_ctx registry name before (plan_again hw name be grid left r)
    unfolding plan_again
    plan_again-IsDone name be model grid (used, true) before r k h d =
        elim (Option-cases (plan hw used (be.memory_model hw) grid)) [
          | inl raised ↦
              rw (raised, plan_again)
                (failed-IsDone min_ctx registry name before (with_model name used r)
                  (with_model-IsPlan min_ctx registry name used r d.sound) d.rest)
          | inr (kept, e) ↦
              rw (e, plan_again)
                (with_kept-IsDone min_ctx registry name used kept before r d.sound d.rest k
                  (kept-IsPlannedFor name be model used grid kept h e))
        ]
    plan_again-IsDone name be model grid (used, false) before r k h d =
        failed-IsDone min_ctx registry name before (with_model name used r)
          (with_model-IsPlan min_ctx registry name used r d.sound) d.rest

    materialized-IsDone :
        (name : String) (be : Backend W) (model : PreparedModel) (grid : List (Config W))
        (kept : List (Config W × MemoryEstimate)) (before r : PlanResult W)
        → is_some (lookup name registry) ≡ true
        → All (IsOffer name model min_ctx) grid
        → IsDone min_ctx registry name before r
        → IsDone min_ctx registry name before
            (materialized sources registry hw min_ctx quants materialize name be model grid kept r)
    unfolding plan_again
    materialized-IsDone name be model grid [] before r k h d = d
    materialized-IsDone name be model grid (ce ∷ kept) before r k h d =
        elim (Bool-cases materialize) [
          | inl e ↦ rw e (plan_again-IsDone name be model grid _ before r k h d)
          | inr e ↦ rw e d
        ]

    plan_grid-IsDone :
        (name : String) (be : Backend W) (model : PreparedModel) (grid : List (Config W))
        (r : PlanResult W)
        → is_some (lookup name registry) ≡ true
        → All (IsOffer name model min_ctx) grid
        → IsPlan min_ctx registry r
        → IsDone min_ctx registry name r
            (plan_grid sources registry hw min_ctx quants materialize name be model grid r)
    unfolding plan_grid
    plan_grid-IsDone name be model [] r k h p = failed-IsDone min_ctx registry name r r p (λ n a. a)
    plan_grid-IsDone name be model (c ∷ cs) r k h p =
        elim (Option-cases (plan hw model (be.memory_model hw) (c ∷ cs))) [
          | inl raised ↦
              rw (raised, plan_grid) (failed-IsDone min_ctx registry name r r p (λ n a. a))
          | inr (kept, e) ↦
              let d =
                with_kept-IsDone min_ctx registry name model kept r r p (λ n a. a) k
                  (kept-IsPlannedFor name be model model (c ∷ cs) kept h e) in
              rw (e, plan_grid)
                (materialized-IsDone name be model (c ∷ cs) kept r _ k h (record {
                  sound = record {
                    offers = d.sound.offers;
                    known = d.sound.known;
                    ready = d.sound.ready;
                  };
                  rest = d.rest;
                  mine = d.mine;
                }))
        ]

    plan_engine-IsDone :
        (name : String) (be : Backend W) (r : PlanResult W)
        → is_some (lookup name registry) ≡ true
        → OffersAll (name, be)
        → IsPlan min_ctx registry r
        → IsDone min_ctx registry name r
            (plan_engine sources registry hw min_ctx quants materialize name be r)
    unfolding plan_engine
    plan_engine-IsDone name be r k h p =
        let allowed = allowed_quants (be.supported_quants hw) quants in
        elim (Bool-cases (is_some quants && is_none_of allowed)) [
          | inl e ↦ rw (e, plan_engine) (failed-IsDone min_ctx registry name r r p (λ n a. a))
          | inr e ↦ elim (Option-cases (sources.prepare name allowed)) [
            | inl raised ↦
                rw (e, raised, plan_engine) (failed-IsDone min_ctx registry name r r p (λ n a. a))
            | inr (model, q) ↦
                rw (e, q, plan_engine) (plan_grid-IsDone name be model _ r k (h hw model min_ctx) p)
          ]
        ]

    plan_all_sound :
        (names : List String) (r : PlanResult W)
        → All (λ n. is_some (lookup n registry) ≡ true) names
        → IsPlan min_ctx registry r
        → (t : PlanResult W) × (plan_all sources registry hw min_ctx quants materialize names r
            ≡ some t)
          × IsPlan min_ctx registry t
          × ((n : String) → IsAnswered r n → IsAnswered t n)
          × All (IsAnswered t) names
    unfolding plan_all
    plan_all_sound [] r known p = (r, refl, p, λ n a. a, tt)
    plan_all_sound (name ∷ names) r known p = elim (Option-cases (lookup name registry)) [
      | inl missing ↦ cc (rw missing at known.0)
      | inr (be, found) ↦
          let d =
            plan_engine-IsDone name be r known.0 (lookup-All OffersAll name registry offers found)
              p in
          let (t, e, q, later, all) = plan_all_sound names _ known.1 d.sound in
          (t, rw (found, plan_all) e, q, λ n a. later n (d.rest n a), (later name d.mine, all))
    ]

    -- For candidates that are known engines, `prepare_and_plan` raises nothing, whatever preparing and
    -- downloading a model do. Every candidate is listed with an error or has a list of
    -- configurations; each of them is of its engine, holds the workload, takes a share of the card
    -- from the grids and was found to fit; and an engine with configurations is known and has a prepared model.
    pub prepare_and_plan-IsPlan :
        (candidates : List String)
        → All (λ n. is_some (lookup n registry) ≡ true) candidates
        → (t : PlanResult W) × (prepare_and_plan sources registry hw min_ctx quants materialize
              candidates
            ≡ some t)
          × IsPlan min_ctx registry t
          × All (IsAnswered t) candidates
    unfolding prepare_and_plan
    prepare_and_plan-IsPlan candidates known =
        let (t, e, p, later, all) =
          plan_all_sound candidates (new_plan hw candidates) known
            (record { offers = tt; known = tt; ready = tt }) in
        (t, e, p, all)
