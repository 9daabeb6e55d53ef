-- ===== src/Stages/Variants.antt =====
-- polyserve/calibrate/search.py: `stage_variants` and `stage_explore`.
use polyserve.Base.{
  ℕ, zero, suc, String, not, ◌&&◌, Option, none, some, List, [], ◌∷◌, if◌then◌else◌, str_eq,
  is_some, keep_if, length, min, max, ◌<>◌, show_ℕ,
}
use polyserve.Float.{Float, from_ℕ}
use polyserve.Models.{Config, TrialResult, key, lookup}
use polyserve.Search.{Env, Settings, Search}
use polyserve.Stages.{
  Strategy, Variants, Action, Spec, any_spec, pure, get, ◌>>=◌, ◌>>◌, for_each, note, trial_only,
  leader_of,
}
use polyserve.Stages.Memory.{try_variant}

module _ {W X : Type 0} ⦃f : Float W⦄ (st : Strategy W X) (env : Env W X) (opts : Settings W)
    (fuel : ℕ) where
  abbrev pub variants_with :
      String → Config W → Option (List (Config W)) → Action (Search W X) (Unit {0})
  variants_with name lead none = pure tt
  variants_with name lead (some vs) = for_each (try_variant st env opts fuel name lead) vs

  abbrev pub variants_of :
      String → Variants W → Option (TrialResult W) → Action (Search W X) (Unit {0})
  variants_of name fn none = pure tt
  variants_of name fn (some lead) = variants_with name lead.config (fn lead.config)

  unfoldable pub stage_variants :
      String → Variants W → Option String → Spec → Action (Search W X) (Unit {0})
  stage_variants name fn backend spec =
      leader_of env opts st fuel backend spec >>= λ lead. variants_of name fn lead

  -- What may be drawn: the leader's engine and precision, not measured yet.
  unfoldable pub explore_pool : Config W → Search W X → List (Config W)
  explore_pool lc s =
      keep_if
        (λ c.
          str_eq c.backend lc.backend
          && (str_eq c.quant lc.quant && not (is_some (lookup (key c) s.done))))
        st.explore_space

  abbrev pub explore_count : List (Config W) → Search W X → ℕ
  explore_count pool s =
      min (length pool)
        (max st.explore_min (f.ceil (f.mul st.explore_share (from_ℕ (length s.results)))))

  abbrev pub found_text : Option (TrialResult W) → String
  found_text none = "; none took the lead"
  found_text (some best) =
      if str_eq best.stage "explore"
      then "; one took the lead: " <> key best.config
      else "; none took the lead"

  abbrev pub explored : Config W → ℕ → Action (Search W X) (Unit {0})
  explored lc n = leader_of env opts st fuel none any_spec >>= λ best. note (
      "explored "
      <> show_ℕ n
      <> " random configurations of "
      <> lc.backend
      <> " "
      <> lc.quant
      <> " after the stages"
      <> found_text best)

  abbrev pub explore_some : Config W → List (Config W) → ℕ → Action (Search W X) (Unit {0})
  explore_some lc pool zero = pure tt
  explore_some lc pool (suc n) =
      for_each (trial_only env opts st fuel "explore") (st.sample pool (suc n))
      >> explored lc (suc n)

  abbrev pub explore_from : Option (TrialResult W) → Action (Search W X) (Unit {0})
  explore_from none = pure tt
  explore_from (some lead) = elim st.explore_space [
    | [] ↦ pure tt
    | c ∷ cs ↦ get >>= λ s.
        (let pool = explore_pool lead.config s in
          explore_some lead.config pool (explore_count pool s))
  ]

  unfoldable pub stage_explore : Action (Search W X) (Unit {0})
  stage_explore = leader_of env opts st fuel none any_spec >>= λ lead. explore_from lead
