-- ===== src/Pipeline/Plan.antt =====
-- polyserve/pipeline.py: `prepare_and_plan`. Repositories and model files are parameters, in `Sources`.
-- An engine that raises is listed in `errors`, without the text of its exception.
use polyserve.Base.{
  ℕ, String, Bool, true, false, Option, none, some, List, [], ◌∷◌, if◌then◌else◌, str_eq, str_ltb,
  length, is_some, ◌&&◌, ◌++◌,
}
use polyserve.Float.{Float}
use polyserve.Models.{Config, HardwareDescriptor, PreparedModel, MemoryEstimate, lookup}
use polyserve.Memory.{plan}
use polyserve.Backends.{Backend}
use polyserve.Pipeline.{PlanResult, allowed_quants}

-- `backend.prepare`, `none` when it raises, and `backend.materialize`: the model as it leaves it, and
-- whether it returned.
pub record Sources : Type 0 where
  pub prepare : String → Option (List String) → Option PreparedModel
  pub materialize : String → PreparedModel → List String → PreparedModel × Bool

-- `table[name] = value`.
unfoldable pub put {ℓ} : {V : Type ℓ} → String → V → List (String × V) → List (String × V)
put name value [] = (name, value) ∷ []
put name value ((other, old) ∷ table) =
    if str_eq other name then (other, value) ∷ table else (other, old) ∷ put name value table

-- `sorted({…})`, one text at a time.
unfoldable pub insert_text : String → List String → List String
insert_text q [] = q ∷ []
insert_text q (p ∷ ps) =
    if str_eq q p then p ∷ ps else if str_ltb q p then q ∷ p ∷ ps else p ∷ insert_text q ps

unfoldable pub survivors : {W : Type 0} → List (Config W × MemoryEstimate) → List String
unfolding insert_text
survivors [] = []
survivors ((c, est) ∷ kept) = insert_text c.quant (survivors kept)

abbrev pub is_none_of {ℓ} : {A : Type ℓ} → Option (List A) → Bool
is_none_of (some []) = true
is_none_of _ = false

module _ {W : Type 0} where
  abbrev pub failed : String → PlanResult W → PlanResult W
  failed name r = record r { errors = r.errors ++ name ∷ [] }

  abbrev pub with_model : String → PreparedModel → PlanResult W → PlanResult W
  with_model name model r = record r { prepared = put name model r.prepared }

  abbrev pub with_kept : String → List (Config W × MemoryEstimate) → PlanResult W → PlanResult W
  with_kept name kept r = record r { feasible = put name kept r.feasible }

  abbrev pub new_plan : HardwareDescriptor → List String → PlanResult W
  new_plan hw candidates = record {
    hw = hw;
    candidates = candidates;
    prepared = [];
    feasible = [];
    considered = [];
    errors = [];
  }

module _ {W : Type 0} ⦃f : Float W⦄ (hw : HardwareDescriptor) where
  -- With the true sizes of the files.
  unfoldable pub plan_again :
      String → Backend W → List (Config W) → PreparedModel × Bool → PlanResult W → PlanResult W
  plan_again name be grid (model, returned) r =
      let r' = with_model name model r in
      if returned
      then (elim (plan hw model (be.memory_model hw) grid) [
        | none ↦ failed name r'
        | some kept ↦ with_kept name kept r'
      ])
      else failed name r'

module _ {W : Type 0} ⦃f : Float W⦄ (sources : Sources) (registry : List (String × Backend W))
    (hw : HardwareDescriptor) (min_ctx : ℕ) (quants : Option (List String))
    (materialize : Bool) where
  abbrev pub materialized :
      String
      → Backend W
      → PreparedModel
      → List (Config W)
      → List (Config W × MemoryEstimate)
      → PlanResult W
      → PlanResult W
  materialized name be model grid [] r = r
  materialized name be model grid (ce ∷ kept) r =
      if materialize
      then plan_again hw name be grid (sources.materialize name model (survivors (ce ∷ kept))) r
      else r

  unfoldable pub plan_grid :
      String → Backend W → PreparedModel → List (Config W) → PlanResult W → PlanResult W
  plan_grid name be model [] r = failed name r
  plan_grid name be model (c ∷ cs) r = elim (plan hw model (be.memory_model hw) (c ∷ cs)) [
    | none ↦ failed name r
    | some kept ↦
        materialized name be model (c ∷ cs) kept
          (record (with_kept name kept (with_model name model r)) {
            considered = put name (length (c ∷ cs)) r.considered;
          })
  ]

  unfoldable pub plan_engine : String → Backend W → PlanResult W → PlanResult W
  plan_engine name be r =
      let allowed = allowed_quants (be.supported_quants hw) quants in
      if is_some quants && is_none_of allowed
      then failed name r
      else (elim (sources.prepare name allowed) [
        | none ↦ failed name r
        | some model ↦ plan_grid name be model (be.candidate_configs hw model min_ctx) r
      ])

  unfoldable pub plan_all : List String → PlanResult W → Option (PlanResult W)
  plan_all [] r = some r
  plan_all (name ∷ names) r = elim (lookup name registry) [
    | none ↦ none
    | some be ↦ plan_all names (plan_engine name be r)
  ]

  -- `none` is the KeyError of a candidate that is not an engine.
  unfoldable pub prepare_and_plan : List String → Option (PlanResult W)
  prepare_and_plan candidates = plan_all candidates (new_plan hw candidates)
