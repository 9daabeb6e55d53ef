-- ===== src/Pipeline.antt =====
-- polyserve/pipeline.py: the options of a run, what they allow, and what the planner made of each
-- engine. Texts that only a reader sees and warnings are left out.
pub mod Variants
pub mod Plan
pub mod Calibrate
pub mod Resolve
pub mod Answered
pub mod Planned
pub mod Spaces
pub mod Expand
pub mod Runs
pub mod Distinct
pub mod Reached
pub mod Found
pub mod Reuse
pub mod Phased
mod Tests
use polyserve.Base.{
  ℕ, String, Bool, true, false, not, ◌&&◌, ◌||◌, Option, none, some, List, [], ◌∷◌, ◌++◌, map,
  if◌then◌else◌, str_eq, ◌==◌, ◌<>◌, show_ℕ, join, any, is_some, keep_if, concat_map,
}
use polyserve.Float.{Float}
use polyserve.Models.{Config, HardwareDescriptor, PreparedModel, MemoryEstimate, part_if}

-- `x in xs`.
abbrev pub is_in : String → List String → Bool
is_in x xs = any (λ y. str_eq y x) xs

abbrev pub prequantized : List String
prequantized = "awq" ∷ "gptq" ∷ "w8a8" ∷ []

-- Asked for by name, or by `auto`, which leaves the pre-quantized checkpoints out.
abbrev pub wanted : List String → String → Bool
wanted asked q = is_in q asked || (is_in "auto" asked && not (is_in q prequantized))

abbrev asked_for : Option (List String) → List String
asked_for none = "auto" ∷ []
asked_for (some quants) = quants

-- The precisions that an engine may prepare; `none` leaves the choice to the engine.
unfoldable pub allowed_quants : List String → Option (List String) → Option (List String)
allowed_quants [] quants = none
allowed_quants (q ∷ qs) quants = some (keep_if (wanted (asked_for quants)) (q ∷ qs))

pub record SearchOptions (W : Type 0) : Type 0 where
  pub quants : Option (List String)
  pub kv_quant : Bool
  pub speculative : Bool
  pub prefix_cache : Bool
  pub phase_tuning : Bool
  pub combine : Bool
  pub budget_s : Option W
  pub ttft_percentile : ℕ
  pub confirm : Bool
  pub all_levels : Bool
  pub explore : Bool
  pub quality_probe : Bool

abbrev option_if : Bool → String → String → List (String × String)
option_if test k v = if test then (k, v) ∷ [] else []

abbrev quant_option : Option (List String) → List (String × String)
quant_option none = []
quant_option (some quants) = ("quant", join "+" quants) ∷ []

abbrev pub ttft_option : Option String → ℕ → List (String × String)
ttft_option none p = []
ttft_option (some objective) p =
    option_if (str_eq objective "balanced" && not (p == 50)) "ttft" ("p" <> show_ℕ p)

module _ {W : Type 0} ⦃f : Float W⦄ where
  abbrev budget_option : Option W → List (String × String)
  budget_option none = []
  budget_option (some b) = ("budget", show_ℕ (f.trunc b) <> "s") ∷ []

  -- `SearchOptions.key`: the options that change the pick.
  unfoldable pub options_key : SearchOptions W → Option String → List (String × String)
  options_key o objective =
      quant_option o.quants
      ++ (option_if (not o.kv_quant) "kv" "off"
          ++ (option_if (not o.speculative) "spec" "off"
              ++ (option_if (not o.prefix_cache) "prefix" "off"
                  ++ (option_if (not o.phase_tuning) "prefill" "off"
                      ++ (option_if (not o.combine) "combine" "off"
                          ++ (option_if (not o.confirm) "confirm" "off"
                              ++ (option_if o.all_levels "levels" "all"
                                  ++ (option_if o.explore "explore" "on"
                                      ++ (option_if o.quality_probe "quality" "on"
                                          ++ (budget_option o.budget_s
                                              ++ ttft_option objective o.ttft_percentile))))))))))

-- `SearchOptions.allows`.
unfoldable pub allows : {W : Type 0} → SearchOptions W → String → Bool
unfolding allowed_quants
allows o quant = elim (allowed_quants (quant ∷ []) o.quants) [
  | none ↦ false
  | some qs ↦ is_in quant qs
]

-- What planning found out, by engine; `feasible` has the configurations that fit.
pub record PlanResult (W : Type 0) : Type 0 where
  pub hw : HardwareDescriptor
  pub candidates : List String
  pub prepared : List (String × PreparedModel)
  pub feasible : List (String × List (Config W × MemoryEstimate))
  pub considered : List (String × ℕ)
  pub errors : List String

unfoldable pub all_feasible : {W : Type 0} → PlanResult W → List (Config W)
all_feasible p = concat_map (λ e. map (λ ce. ce.0) e.1) p.feasible
