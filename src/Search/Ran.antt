-- ===== src/Search/Ran.antt =====
-- The ways in which a run ends.
use polyserve.Base.{
  ℕ, suc, String, ◌≡◌, subst, inl, inr, true, false, none, some, Bool-cases, Option-cases,
}
use mathlib.Core.Option.{some-injective}
use polyserve.Float.{Float}
use polyserve.Models.{Config, TrialResult, key, lookup}
use polyserve.Search.{
  Env, Settings, Search, not_run, headroom_retry, over_budget, measure, recorded, with_retry,
  with_skip, run,
}

module _ {W X : Type 0} ⦃f : Float W⦄ (env : Env W X) (opts : Settings W) (fuel : ℕ)
    (cfg : Config W) (stage : String) (s : Search W X) where
  -- The state at the start of the trial, and the trial with the state after it.
  abbrev pub opened : Search W X
  opened = (over_budget env opts s).1

  abbrev pub measured : TrialResult W × Search W X
  measured = measure env opts cfg stage opened

  pub data Ran : TrialResult W → Search W X → Type 0 where
    known : (r : TrialResult W) → lookup (key cfg) s.done ≡ some r → Ran r s
    skips :
        lookup (key cfg) s.done ≡ none
        → (over_budget env opts s).0 ≡ true
        → Ran (not_run cfg stage) (with_skip cfg stage opened)
    finishes :
        lookup (key cfg) s.done ≡ none
        → (over_budget env opts s).0 ≡ false
        → headroom_retry env opts cfg measured.0 measured.1 ≡ none
        → Ran measured.0 (recorded measured.0 measured.1)
    retries :
        (retry : Config W) (r : TrialResult W) (t : Search W X)
        → lookup (key cfg) s.done ≡ none
        → (over_budget env opts s).0 ≡ false
        → headroom_retry env opts cfg measured.0 measured.1 ≡ some retry
        → run env opts fuel retry stage (with_retry cfg retry measured.0 measured.1) ≡ some (r, t)
        → Ran r t

  ends_as : (p q : TrialResult W × Search W X) → Ran p.0 p.1 → some p ≡ some q → Ran q.0 q.1
  ends_as p q ran e = subst (λ x. Ran x.0 x.1) (some-injective _ _ e) ran

  pub run-Ran :
      (r : TrialResult W) (t : Search W X)
      → run env opts (suc fuel) cfg stage s ≡ some (r, t)
      → Ran r t
  unfolding run
  run-Ran r t h = elim (Option-cases (lookup (key cfg) s.done)) [
    | inr (res, e) ↦ ends_as _ (r, t) (Ran.known res e) (rw (e, run) at h)
    | inl e ↦ elim (Bool-cases (over_budget env opts s).0) [
      | inl over ↦ ends_as _ (r, t) (Ran.skips e over) (rw (e, over, run) at h)
      | inr under ↦ elim (Option-cases (headroom_retry env opts cfg measured.0 measured.1)) [
        | inl stays ↦ ends_as _ (r, t) (Ran.finishes e under stays) (rw (e, under, stays, run) at h)
        | inr (retry, goes) ↦ Ran.retries retry r t e under goes (rw (e, under, goes, run) at h)
      ]
    ]
  ]
