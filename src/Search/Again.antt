-- ===== src/Search/Again.antt =====
-- What `_run` returns is remembered and on record, and a second run of a configuration is free.
use polyserve.Base.{
  ℕ, zero, suc, String, ◌≡◌, refl, sym, ◌∙◌, ap, subst, true, false, some, arith, Memᴰ,
  Memᴰ-append_right,
}
use polyserve.Float.{Float}
use polyserve.Models.{Config, TrialResult, key, lookup, ok}
use polyserve.Search.Ran.{Ran, run-Ran, opened, measured}
use polyserve.Search.{Env, Settings, Search, over_budget, measure, run}
use polyserve.Search.Keys.{lookup-append, lookup-append_self, lookup-on_record}
use polyserve.Search.Memo.{
  IsConsistent, over_budget-same, unseen, measure-IsConsistent, over_budget-IsConsistent,
}

module _ {W X : Type 0} ⦃f : Float W⦄ (env : Env W X) (opts : Settings W) where
  -- What is remembered stays so.
  Ran-keeps :
      (fuel : ℕ) (cfg : Config W) (stage : String) (s t : Search W X) (r : TrialResult W)
      (k : String) (v : TrialResult W)
      → ((retry : Config W) (u : Search W X)
          → run env opts fuel retry stage u ≡ some (r, t)
          → lookup k u.done ≡ some v
          → lookup k t.done ≡ some v)
      → Ran env opts fuel cfg stage s r t
      → lookup k s.done ≡ some v
      → lookup k t.done ≡ some v
  unfolding measure
  Ran-keeps fuel cfg stage s t r k v again (Ran.known res e) m = m
  Ran-keeps fuel cfg stage s t r k v again (Ran.skips e over) m =
      ap (lookup k) (over_budget-same env opts s).1 ∙ m
  Ran-keeps fuel cfg stage s t r k v again (Ran.finishes e under stays) m =
      lookup-append k v _ _ (ap (lookup k) (over_budget-same env opts s).1 ∙ m)
  Ran-keeps fuel cfg stage s t r k v again (Ran.retries retry r' t' e under goes h) m =
      again retry _ h (lookup-append k v _ _ (ap (lookup k) (over_budget-same env opts s).1 ∙ m))

  run-keeps :
      (fuel : ℕ) (cfg : Config W) (stage : String) (s t : Search W X) (r : TrialResult W)
      (k : String) (v : TrialResult W)
      → run env opts fuel cfg stage s ≡ some (r, t)
      → lookup k s.done ≡ some v
      → lookup k t.done ≡ some v
  unfolding run
  run-keeps zero cfg stage s t r k v h m = cc
  run-keeps (suc fuel) cfg stage s t r k v h m =
      Ran-keeps fuel cfg stage s t r k v (λ retry u. run-keeps fuel retry stage u t r k v)
        (run-Ran env opts fuel cfg stage s r t h) m

  -- What a run that the budget allows leaves remembered under the key of its configuration.
  Ran-remembers :
      (fuel : ℕ) (cfg : Config W) (stage : String) (s t : Search W X) (r : TrialResult W)
      → (over_budget env opts s).0 ≡ false
      → Ran env opts fuel cfg stage s r t
      → (v : TrialResult W) × (lookup (key cfg) t.done ≡ some v)
  unfolding measure
  Ran-remembers fuel cfg stage s t r under (Ran.known res e) = (res, e)
  Ran-remembers fuel cfg stage s t r under (Ran.skips e over) = absurd (ground arith)
  Ran-remembers fuel cfg stage s t r under (Ran.finishes e u stays) = (
    (measured env opts fuel cfg stage s).0,
    lookup-append_self (key cfg) _ (over_budget env opts s).1.done (unseen env opts cfg s e),
  )
  Ran-remembers fuel cfg stage s t r under (Ran.retries retry r' t' e u goes h) = (
    (measured env opts fuel cfg stage s).0,
    run-keeps fuel retry stage _ t' r' (key cfg) _ h
        (lookup-append_self (key cfg) _ (over_budget env opts s).1.done (unseen env opts cfg s e)),
  )

  -- A configuration is tried once: after a run of it that the budget allowed, any later run of it
  -- while the search stands there reads neither the clock nor the runner and changes nothing.
  pub run-again :
      (fuel : ℕ) (cfg : Config W) (stage : String) (s t : Search W X) (r : TrialResult W)
      → (over_budget env opts s).0 ≡ false
      → run env opts (suc fuel) cfg stage s ≡ some (r, t)
      → (v : TrialResult W) × ((more : ℕ) (later : String)
          → run env opts (suc more) cfg later t ≡ some (v, t))
  unfolding run
  run-again fuel cfg stage s t r under h =
      let (v, k) =
        Ran-remembers fuel cfg stage s t r under (run-Ran env opts fuel cfg stage s r t h) in
      (v, λ more later. rw (k, run) refl)

  Ran-on_record :
      (fuel : ℕ) (cfg : Config W) (stage : String) (s t : Search W X) (r : TrialResult W)
      → ((retry : Config W) (u : Search W X)
          → run env opts fuel retry stage u ≡ some (r, t)
          → IsConsistent env opts u
          → Memᴰ r t.results)
      → ok r ≡ true
      → Ran env opts fuel cfg stage s r t
      → IsConsistent env opts s
      → Memᴰ r t.results
  unfolding ok
  Ran-on_record fuel cfg stage s t r again good (Ran.known res e) c =
      subst (Memᴰ res) (sym c.on_record) (lookup-on_record (key cfg) res s.done e)
  Ran-on_record fuel cfg stage s t r again good (Ran.skips e over) c = absurd (ground arith)
  Ran-on_record fuel cfg stage s t r again good (Ran.finishes e under stays) c =
      Memᴰ-append_right _ _ (Memᴰ.head refl)
  Ran-on_record fuel cfg stage s t r again good (Ran.retries retry r' t' e under goes h) c =
      let m =
        measure-IsConsistent env opts cfg stage (opened env opts fuel cfg stage s)
          (unseen env opts cfg s e) (over_budget-IsConsistent env opts s c) in
      again retry _ h (record { on_record = m.on_record; distinct = m.distinct })

  -- A successful trial that a run returns is on record: it was measured, in this run or before. A trial
  -- that the budget stopped is not successful.
  run-on_record :
      (fuel : ℕ) (cfg : Config W) (stage : String) (s t : Search W X) (r : TrialResult W)
      → run env opts fuel cfg stage s ≡ some (r, t)
      → IsConsistent env opts s
      → ok r ≡ true
      → Memᴰ r t.results
  unfolding run
  run-on_record zero cfg stage s t r h c good = cc
  run-on_record (suc fuel) cfg stage s t r h c good =
      Ran-on_record fuel cfg stage s t r
        (λ retry u k d. run-on_record fuel retry stage u t r k d good) good
        (run-Ran env opts fuel cfg stage s r t h) c
