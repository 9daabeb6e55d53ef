-- ===== src/Stages.antt =====
-- polyserve/calibrate/search.py: the stages of `StagedSearch`. A stage is an action on the search's
-- state; `none` is an exception that nothing catches (an IndexError, the
-- TypeError of `pick`), or fuel that ran out.
pub mod Groups
pub mod Quant
pub mod Memory
pub mod Variants
pub mod Delta
pub mod Combine
pub mod Contenders
pub mod Confirm
pub mod Whole
pub mod Triples
pub mod Given
pub mod Sound
pub mod Fine
pub mod Start
pub mod Early
pub mod Shapes
pub mod Middle
pub mod Tuning
pub mod Combined
pub mod Tuned
pub mod Fresh
pub mod Shortlist
pub mod Confirmed
pub mod Finish
pub mod Picks
pub mod Pool
pub mod Outcome
pub mod Extra
pub mod Change
pub mod Tests
use polyserve.Base.{
  ℕ, zero, suc, String, Bool, true, false, not, ◌&&◌, ◌||◌, Option, none, some, List, [], ◌∷◌, ◌++◌,
  if◌then◌else◌, str_eq, is_some, keep_if,
}
use polyserve.Float.{Float}
use polyserve.Models.{Config, TrialResult}
use polyserve.Objectives.Score.{Objective, Constraints}
use polyserve.Objectives.Pick.{pick}
use polyserve.Power.Settings.{PowerSetting}
use polyserve.Search.{Env, Settings, Search, run, allowed}

-- A function that proposes variants of a configuration; `none` when it raises.
abbrev pub Variants : Type 0 → Type 0
Variants W = Config W → Option (List (Config W))

-- The fields of `StagedSearch` that the stages read. `predicted` is `_predicted_tok_s`, and `sample`
-- is `random.Random(explore_seed).sample`.
pub record Strategy (W X : Type 0) : Type 0 where
  pub objective : Objective
  pub constraints : Constraints W
  pub top_quants : ℕ
  pub max_memory_trials_per_quant : ℕ
  pub predicted : Config W → Option W
  pub prune_below : W
  pub drop_backend_below : W
  pub power_points : List PowerSetting
  pub prefill_variants : Option (Variants W)
  pub variant_stages : List (String × Variants W)
  pub combine : Bool
  pub combine_band : W
  pub max_combinations : ℕ
  pub contender_band : W
  pub quality_summary : Option (X → List String)
  pub refused : List (String × String)
  pub confirm_top : ℕ
  pub confirm_band : W
  pub confirm_rounds : ℕ
  pub explore_space : List (Config W)
  pub explore_share : W
  pub explore_min : ℕ
  pub sample : List (Config W) → ℕ → List (Config W)
  pub spec_first : Bool
  pub spec_beam : ℕ

abbrev pub Action : Type 0 → Type 0 → Type 0
Action S A = S → Option (A × S)

module _ {S : Type 0} where
  abbrev pub get : Action S S
  get s = some (s, s)

  abbrev pub modify : (S → S) → Action S (Unit {0})
  modify g s = some (tt, g s)

  module _ {A : Type 0} where
    abbrev pub pure : A → Action S A
    pure a s = some (a, s)

    abbrev pub fail : Action S A
    fail s = none

    -- `for x in xs: body(x)`.
    unfoldable pub for_each : (A → Action S (Unit {0})) → List A → Action S (Unit {0})
    for_each body [] s = some (tt, s)
    for_each body (x ∷ xs) s = elim (body x s) [ none ↦ none | some (u, t) ↦ for_each body xs t ]

  module _ {A B : Type 0} where
    infixl 5 ◌>>=◌
    unfoldable pub ◌>>=◌ : Action S A → (A → Action S B) → Action S B
    (m >>= k) s = elim (m s) [ none ↦ none | some (a, t) ↦ k a t ]

  module _ {B : Type 0} where
    infixl 5 ◌>>◌
    abbrev pub ◌>>◌ : Action S (Unit {0}) → Action S B → Action S B
    m >> k = m >>= λ u. k

module _ {W X : Type 0} where
  abbrev pub note : String → Action (Search W X) (Unit {0})
  note text = modify (λ s. record s { notes = s.notes ++ text ∷ [] })

  abbrev pub log_variant : String → Config W → Config W → Action (Search W X) (Unit {0})
  log_variant dim ref var =
      modify (λ s. record s { variant_log = s.variant_log ++ (dim, (ref, var)) ∷ [] })

-- `spec` of `_leader`: any speculation setting, or the given one.
pub data Spec : Type 0 where
  any_spec : Spec
  only : Option String → Spec

abbrev pub same_text? : Option String → Option String → Bool
same_text? none none = true
same_text? (some a) (some b) = str_eq a b
same_text? _ _ = false

abbrev pub matches_backend : Option String → String → Bool
matches_backend none b = true
matches_backend (some a) b = str_eq b a

abbrev pub matches_spec : Spec → Option String → Bool
matches_spec any_spec s = true
matches_spec (only t) s = same_text? s t

module _ {W X : Type 0} ⦃f : Float W⦄ (env : Env W X) (opts : Settings W) (st : Strategy W X)
    (fuel : ℕ) where
  abbrev pub trial : Config W → String → Action (Search W X) (TrialResult W)
  trial cfg stage s = run env opts fuel cfg stage s

  -- A trial whose result is not looked at.
  abbrev pub trial_only : String → Config W → Action (Search W X) (Unit {0})
  trial_only stage cfg = trial cfg stage >>= λ r. pure tt

  -- `leader, _ = pick(pool, …)`; `none` is its TypeError.
  unfoldable pub pick_of : List (TrialResult W) → Action (Search W X) (Option (TrialResult W))
  pick_of pool s = elim (pick pool st.objective st.constraints) [
    | none ↦ none
    | some (winner, notes) ↦ some (winner, s)
  ]

  -- `_leader`.
  unfoldable pub leader_of : Option String → Spec → Action (Search W X) (Option (TrialResult W))
  leader_of backend spec s =
      pick_of
        (keep_if
          (λ r. matches_backend backend r.config.backend && matches_spec spec r.config.spec_decode)
          s.results)
        s
